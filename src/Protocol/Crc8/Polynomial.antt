-- ===== src/Protocol/Crc8/Polynomial.antt =====
-- Crc8Layer::compute (src/protocol.cpp) against the bitwise division by the polynomial.
use libstored.Prelude.{ℕ, ◌≡◌, refl, true, [], ◌∷◌, ◌==◌, if◌then◌else◌}
use libstored.Prelude.{◌*◌, ◌%◌, bit_xor, ltb, agree_below, all_below, get_or, zero, suc, arith}
use libstored.Protocol.{Bytes}
use libstored.Protocol.Crc8.Table.{crc8_table}
use libstored.Protocol.Crc8.{compute, update}

-- `polynomial` of protocol.h.
abbrev pub polynomial : ℕ
polynomial = 0xa6

-- The remainder register moves one bit; the bit that leaves it subtracts the polynomial.
unfoldable pub shift_bit : ℕ → ℕ
shift_bit r = if ltb r 128 then 2 * r else bit_xor (2 * r % 256) polynomial

unfoldable pub shift_bits : ℕ → ℕ → ℕ
shift_bits zero r = r
shift_bits (suc n) r = shift_bits n (shift_bit r)

table_polynomial : all_below 256 (λ x. get_or crc8_table x 0 == shift_bits 8 x) ≡ true
unfolding all_below crc8_table shift_bit shift_bits
table_polynomial = refl

-- The checksum by the division, one byte at a time.
unfoldable pub remainder : ℕ → Bytes → ℕ
remainder r [] = r
remainder r (b ∷ bs) = remainder (shift_bits 8 (bit_xor b r % 256)) bs

compute-shift_bits : (b r : ℕ) → compute b r ≡ shift_bits 8 (bit_xor b r % 256)
unfolding compute
compute-shift_bits b r =
    agree_below (λ x. get_or crc8_table x 0) (shift_bits 8) 256 (bit_xor b r % 256) table_polynomial
      (omega arith)

-- On every message and from every start the table-driven checksum is the remainder of the
-- division, bit by bit, by the polynomial 0xa6.
pub crc8_update-remainder : (r : ℕ) (m : Bytes) → update r m ≡ remainder r m
unfolding update remainder
crc8_update-remainder r [] = refl
crc8_update-remainder r (b ∷ m) =
    rw (compute-shift_bits b r) (crc8_update-remainder (shift_bits 8 (bit_xor b r % 256)) m)
