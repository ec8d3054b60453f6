-- ===== src/Prelude/Xor.antt =====
-- The laws of exclusive or on numbers of any width, from the recursion on binary digits that the
-- native operation stands for.
use Prim.Native.Nat.{ℕ, zero, suc, ◌+◌, ◌*◌, ◌/◌, ◌%◌, ◌^◌, ◌≤◌, ◌<◌, bit_xor}
use Prim.Native.Nat.{digits, differ, bit_xor-bitwise}
use mathlib.Core.Path.{◌≡◌, refl, sym, ap, ◌∙◌}
use native.Mathlib.Nat.{pow-suc}
use native.Mathlib.Omega.{arith}

abbrev xor_digits : ℕ → ℕ → ℕ → ℕ
xor_digits n a b = digits (λ y. y) differ n a b

enough_digits :
    (fuel more x y : ℕ) → x ≤ fuel → x ≤ more → xor_digits fuel x y ≡ xor_digits more x y
enough_digits zero zero x y h k = refl
enough_digits zero (suc more) zero y h k = refl
enough_digits (suc fuel) zero zero y h k = refl
enough_digits zero (suc more) (suc x) y h k = absurd (omega (arith, h))
enough_digits (suc fuel) zero (suc x) y h k = absurd (omega (arith, k))
enough_digits (suc fuel) (suc more) zero y h k = refl
enough_digits (suc fuel) (suc more) (suc x) y h k =
    rw (enough_digits fuel more (suc x / 2) (y / 2) (omega (arith, h)) (omega (arith, k)))

differ_digit : (x y : ℕ) → x < 2 → y < 2 → differ x y ≡ (x + y) % 2
differ_digit zero zero h k = refl
differ_digit zero (suc zero) h k = refl
differ_digit (suc zero) zero h k = refl
differ_digit (suc zero) (suc zero) h k = refl
differ_digit (suc (suc x)) y h k = absurd (omega arith)
differ_digit zero (suc (suc y)) h k = absurd (omega arith)
differ_digit (suc zero) (suc (suc y)) h k = absurd (omega arith)

zero-xor : (b : ℕ) → bit_xor 0 b ≡ b
zero-xor b = bit_xor-bitwise 0 b

-- The lowest digit.
pub xor_step : (a b : ℕ) → bit_xor a b ≡ bit_xor (a / 2) (b / 2) * 2 + (a % 2 + b % 2) % 2
xor_step zero b = omega (arith, zero-xor b, zero-xor (b / 2))
xor_step (suc a) b = omega (
  arith,
  bit_xor-bitwise (suc a) b,
  bit_xor-bitwise (suc a / 2) (b / 2),
  enough_digits a (suc a / 2) (suc a / 2) (b / 2) (omega arith) (omega arith),
  differ_digit (suc a % 2) (b % 2) (omega arith) (omega arith),
)

xor_half : (a b : ℕ) → bit_xor a b / 2 ≡ bit_xor (a / 2) (b / 2)
xor_half a b = omega (arith, xor_step a b)

pub xor_low : (a b : ℕ) → bit_xor a b % 2 ≡ (a % 2 + b % 2) % 2
xor_low a b = omega (arith, xor_step a b)

comm_below : (n a b : ℕ) → a ≤ n → b ≤ n → bit_xor a b ≡ bit_xor b a
comm_below zero zero zero p q = refl
comm_below zero (suc a) b p q = absurd (omega arith)
comm_below zero zero (suc b) p q = absurd (omega arith)
comm_below (suc n) a b p q =
    omega
      (arith, xor_step a b, xor_step b a, comm_below n (a / 2) (b / 2) (omega arith) (omega arith))

pub xor_comm : (a b : ℕ) → bit_xor a b ≡ bit_xor b a
xor_comm a b = comm_below (a + b) a b (omega arith) (omega arith)

assoc_below :
    (n a b c : ℕ) → a ≤ n → b ≤ n → c ≤ n → bit_xor (bit_xor a b) c ≡ bit_xor a (bit_xor b c)
assoc_below zero zero zero zero p q r = refl
assoc_below zero (suc a) b c p q r = absurd (omega arith)
assoc_below zero zero (suc b) c p q r = absurd (omega arith)
assoc_below zero zero zero (suc c) p q r = absurd (omega arith)
assoc_below (suc n) a b c p q r =
    rw
      (
        xor_step (bit_xor a b) c,
        xor_half a b,
        xor_low a b,
        xor_step a (bit_xor b c),
        xor_half b c,
        xor_low b c,
        assoc_below n (a / 2) (b / 2) (c / 2) (omega arith) (omega arith) (omega arith),
      )
      (omega arith)

pub xor_assoc : (a b c : ℕ) → bit_xor (bit_xor a b) c ≡ bit_xor a (bit_xor b c)
xor_assoc a b c = assoc_below (a + b + c) a b c (omega arith) (omega arith) (omega arith)

self_below : (n a : ℕ) → a ≤ n → bit_xor a a ≡ 0
self_below zero zero p = refl
self_below zero (suc a) p = absurd (omega arith)
self_below (suc n) a p = omega (arith, xor_step a a, self_below n (a / 2) (omega arith))

pub xor_self : (a : ℕ) → bit_xor a a ≡ 0
xor_self a = self_below a a (omega arith)

pub xor-zero : (a : ℕ) → bit_xor a 0 ≡ a
xor-zero a = xor_comm a 0 ∙ zero-xor a

pub xor_cancel : (a b : ℕ) → bit_xor (bit_xor a b) b ≡ a
xor_cancel a b = xor_assoc a b b ∙ ap (bit_xor a) (xor_self b) ∙ xor-zero a

pub xor_cancel_left : (a b : ℕ) → bit_xor (bit_xor a b) a ≡ b
xor_cancel_left a b = ap (λ t. bit_xor t a) (xor_comm a b) ∙ xor_cancel b a

-- A shared part drops out of a difference.
pub xor_shared : (a b c : ℕ) → bit_xor (bit_xor a c) (bit_xor b c) ≡ bit_xor a b
xor_shared a b c = rw (xor_comm b c, ← xor_assoc (bit_xor a c) c b, xor_cancel a c)

pub xor_shared_left : (a b c : ℕ) → bit_xor (bit_xor c a) (bit_xor c b) ≡ bit_xor a b
xor_shared_left a b c = rw (xor_comm c a, xor_comm c b) (xor_shared a b c)

pub xor_right_injective : (a b c : ℕ) → bit_xor a c ≡ bit_xor b c → a ≡ b
xor_right_injective a b c h = sym (xor_cancel a c) ∙ ap (λ t. bit_xor t c) h ∙ xor_cancel b c

shift_suc : (a k : ℕ) → a * 2 ^ suc k ≡ 2 * (a * 2 ^ k)
shift_suc a k = omega (arith, ap (λ (t : ℕ). a * t) (pow-suc 2 k))

field_half : (a x k : ℕ) → (a * 2 ^ suc k + x) / 2 ≡ a * 2 ^ k + x / 2
field_half a x k = omega (arith, shift_suc a k)

field_low : (a x k : ℕ) → (a * 2 ^ suc k + x) % 2 ≡ x % 2
field_low a x k = omega (arith, shift_suc a k)

no_field : (a : ℕ) → a * 2 ^ 0 + 0 ≡ a
no_field a = omega arith

-- A number of `k` digits and what stands above them.
pub xor_fields :
    (k a b x y : ℕ)
    → x < 2 ^ k
    → y < 2 ^ k
    → (bit_xor (a * 2 ^ k + x) (b * 2 ^ k + y) ≡ bit_xor a b * 2 ^ k + bit_xor x y)
      × (bit_xor x y < 2 ^ k)
xor_fields zero a b zero zero hx hy =
    (rw (xor-zero 0, no_field a, no_field b) (omega arith), omega arith)
xor_fields zero a b (suc x) y hx hy = absurd (omega arith)
xor_fields zero a b zero (suc y) hx hy = absurd (omega arith)
xor_fields (suc k) a b x y hx hy =
    let (e, lt) =
      xor_fields k a b (x / 2) (y / 2) (omega (arith, pow-suc 2 k)) (omega (arith, pow-suc 2 k)) in
    (
      rw
          (
            xor_step (a * 2 ^ suc k + x) (b * 2 ^ suc k + y),
            field_half a x k,
            field_half b y k,
            field_low a x k,
            field_low b y k,
            e,
          )
          (omega (arith, xor_step x y, shift_suc (bit_xor a b) k)),
      omega (arith, xor_step x y, pow-suc 2 k),
    )

pub xor_left_injective : (a b c : ℕ) → bit_xor a b ≡ bit_xor a c → b ≡ c
xor_left_injective a b c h = xor_right_injective b c a (xor_comm b a ∙ h ∙ xor_comm a c)
