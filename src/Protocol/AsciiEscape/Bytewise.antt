-- ===== src/Protocol/AsciiEscape/Bytewise.antt =====
-- AsciiEscapeLayer::needEscape (src/protocol.cpp) on each of the 256 characters.
use libstored.Prelude.{ℕ, ◌≡◌, refl, Bool, true, false, not, ◌&&◌, ◌||◌, ◌==◌, if◌then◌else◌, ◌<◌}
use libstored.Prelude.{all_below, all_below_sound, ltb, bit_and, IsByte, arith, ◌≢◌}
use libstored.Protocol.AsciiEscape.{need_escape, esc, esc_mask, cr, conflicts}

-- The character that `decode` makes of the one behind an escape character.
abbrev pub restored : ℕ → ℕ
restored d = if d == esc then esc else bit_and d esc_mask

-- A character that goes as it is is no escape character, and none that conflicts.
abbrev plain_test : Bool → ℕ → Bool
plain_test all c = not (need_escape all c == 0) || (not (c == esc) && not (conflicts c))

-- One that is escaped is restored, and what stands for it is printable or DEL.
abbrev escaped_test : Bool → ℕ → Bool
escaped_test all c =
    need_escape all c == 0
    || ((restored (need_escape all c) == c)
        && (ltb 0x3f (need_escape all c) && ltb (need_escape all c) 0x80))

plain_table : (all : Bool) → all_below 256 (plain_test all) ≡ true
unfolding all_below need_escape conflicts
plain_table true = refl
plain_table false = refl

escaped_table : (all : Bool) → all_below 256 (escaped_test all) ≡ true
unfolding all_below need_escape conflicts
escaped_table true = refl
escaped_table false = refl

pub plain_clean :
    (all : Bool) (c : ℕ)
    → IsByte c
    → need_escape all c ≡ 0
    → (c ≢ esc) × (c ≢ 0) × (c ≢ 0x11) × (c ≢ 0x13) × (c ≢ 0x1b) × (c ≢ cr)
unfolding conflicts
plain_clean all c h e = ground (arith, all_below_sound 256 (plain_test all) c (plain_table all) h)

pub escaped_restored :
    (all : Bool) (c : ℕ)
    → IsByte c
    → need_escape all c ≢ 0
    → (restored (need_escape all c) ≡ c) × (0x3f < need_escape all c) × (need_escape all c < 0x80)
escaped_restored all c h e =
    ground (arith, all_below_sound 256 (escaped_test all) c (escaped_table all) h)
