-- ===== src/Synchronizer/Journal/ShortSeq.antt =====
-- StoreJournal::toShort and toLong (src/synchronizer.cpp): a sequence number in sixteen bits.
use libstored.Prelude.{ℕ, ◌≡◌, ◌==◌, if◌then◌else◌, ltb, arith}
use libstored.Prelude.{◌+◌, ◌-◌, ◌%◌, ◌^◌, ◌<◌, ◌≤◌, sub_size}

abbrev pub short_seq_window : ℕ
short_seq_window = 2 ^ 16

-- The source asserts here that the number lies in the window.
unfoldable pub to_short : ℕ → ℕ
to_short seq = seq % 2 ^ 16

unfoldable pub to_long : ℕ → ℕ → ℕ
unfolding to_short sub_size
to_long now seq =
    let short = to_short now in
    if seq == short
    then now
    else if ltb seq short
    then sub_size now (short - seq)
    else sub_size now (short_seq_window + short - seq)

-- The numbers that have a short one: the window's, up to now.
abbrev pub InWindow : ℕ → ℕ → Type 0
InWindow now seq = (seq ≤ now) × (now < seq + short_seq_window)

-- The short numbers that stand for one that is not below 0.
abbrev pub IsShort : ℕ → ℕ → Type 0
IsShort now seq = (seq < short_seq_window) × (seq ≤ now)

pub to_long-InWindow :
    (now seq : ℕ) → now < 2 ^ 64 → IsShort now seq → InWindow now (to_long now seq)
unfolding to_long
to_long-InWindow now seq h k = ground arith

pub to_short-IsShort : (now seq : ℕ) → InWindow now seq → IsShort now (to_short seq)
unfolding to_short
to_short-IsShort now seq h = omega arith

-- A number of the window is read back from its short one.
pub to_long-to_short :
    (now seq : ℕ) → now < 2 ^ 64 → InWindow now seq → to_long now (to_short seq) ≡ seq
unfolding to_long
to_long-to_short now seq h k = ground arith

-- The short number means the same when time goes on, while the window still holds it.
pub to_long-later :
    (now later seq : ℕ)
    → now ≤ later
    → later < 2 ^ 64
    → IsShort now seq
    → later < to_long now seq + short_seq_window
    → to_long later seq ≡ to_long now seq
unfolding to_long
to_long-later now later seq h k short fits = ground arith
