-- ===== src/Prelude/Bits.antt =====
-- Facts about numbers in a range, checked at every value of it.
use Prim.Native.Nat.{ℕ, zero, suc, ◌<◌}
use mathlib.Core.Path.{◌≡◌}
use mathlib.Core.Bool.{Bool, true, ◌&&◌}
use native.Mathlib.Omega.{arith}
use libstored.Prelude.Tests.{◌==◌, ==_iff}

abbrev pub IsByte : ℕ → Type 0
IsByte b = b < 256

-- Whether a test holds of every number under a bound.
unfoldable pub all_below : ℕ → (ℕ → Bool) → Bool
all_below zero test = true
all_below (suc k) test = all_below k test && test k

pub all_below_sound :
    (bound : ℕ) (test : ℕ → Bool) (y : ℕ) → all_below bound test ≡ true → y < bound → test y ≡ true
unfolding all_below
all_below_sound zero test y holds under = absurd (omega (arith, under))
all_below_sound (suc k) test y holds under = ground (arith, holds, under, all_below_sound k test y)

-- Two functions that agree at every value below `n`.
pub agree_below : (f g : ℕ → ℕ) (n x : ℕ) → all_below n (λ y. f y == g y) ≡ true → x < n → f x ≡ g x
agree_below f g n x h lt = (==_iff (f x) (g x)).0 (all_below_sound n _ x h lt)
