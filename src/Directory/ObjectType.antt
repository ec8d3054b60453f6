-- ===== src/Directory/ObjectType.antt =====
-- struct Type (include/libstored/types.h): the flags in the byte of a type.
use libstored.Prelude.{ℕ, Bool, not, ◌&&◌}
use libstored.Prelude.{◌==◌, if◌then◌else◌, ◌+◌, bit_and}

abbrev mask_size : ℕ
mask_size = 0x07

abbrev mask_flags : ℕ
mask_flags = 0x78

abbrev flag_signed : ℕ
flag_signed = 0x08

abbrev flag_int : ℕ
flag_int = 0x10

abbrev flag_fixed : ℕ
flag_fixed = 0x20

abbrev flag_function : ℕ
flag_function = 0x40

unfoldable pub is_function : ℕ → Bool
is_function t = not (bit_and t flag_function == 0)

unfoldable pub is_fixed : ℕ → Bool
is_fixed t = not (bit_and t flag_fixed == 0)

unfoldable pub is_int : ℕ → Bool
unfolding is_fixed
is_int t = is_fixed t && not (bit_and t flag_int == 0)

unfoldable pub is_signed : ℕ → Bool
unfolding is_fixed
is_signed t = is_fixed t && not (bit_and t flag_signed == 0)

unfoldable pub is_special : ℕ → Bool
is_special t = bit_and t mask_flags == 0

unfoldable pub size : ℕ → ℕ
unfolding is_fixed
size t = if not (is_fixed t) then 0 else bit_and t mask_size + 1
