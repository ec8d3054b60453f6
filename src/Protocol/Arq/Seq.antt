-- ===== src/Protocol/Arq/Seq.antt =====
-- ArqLayer::nextSeq (src/protocol.cpp) and the header bytes.
use libstored.Prelude.{
  ℕ, ◌≡◌, ◌≢◌, refl, Bool, true, false, not, ◌&&◌, ◌==◌, ==_iff, ◌+◌, ◌<◌, ◌≤◌, if◌then◌else◌,
  bit_and, bit_or, all_below, all_below_sound, arith,
}
use libstored.Protocol.Arq.{next_seq, nop_flag, ack_flag, seq_mask}

abbrev pub IsSeq : ℕ → Type 0
IsSeq n = n < 64

abbrev seq_test : ℕ → Bool
seq_test n = next_seq n == (if n == 63 then 1 else n + 1)

seq_table : all_below 64 seq_test ≡ true
unfolding all_below next_seq
seq_table = refl

-- Sequence numbers go from 1 to 63 and then start at 1 again; 0 is never next.
pub next_seq_value : (n : ℕ) → IsSeq n → next_seq n ≡ (if n == 63 then 1 else n + 1)
next_seq_value n h = (==_iff _ _).0 (all_below_sound 64 seq_test n seq_table h)

pub next_seq_bounds : (n : ℕ) → IsSeq n → (1 ≤ next_seq n) × IsSeq (next_seq n) × (next_seq n ≢ n)
next_seq_bounds n h = ground (arith, next_seq_value n h)

-- A message's header, a keep-alive's and an acknowledgement's.
abbrev header_test : ℕ → Bool
header_test n =
    (bit_and n ack_flag == 0)
    && (bit_and n seq_mask == n)
    && (bit_and n nop_flag == 0)
    && (bit_or n nop_flag == n + 64)
    && (bit_or n ack_flag == n + 128)
    && (bit_and (n + 64) ack_flag == 0)
    && (bit_and (n + 64) seq_mask == n)
    && not (bit_and (n + 64) nop_flag == 0)
    && not (bit_and (n + 128) ack_flag == 0)
    && (bit_and (n + 128) seq_mask == n)

header_table : all_below 64 header_test ≡ true
unfolding all_below
header_table = refl

pub record Headers (n : ℕ) : Type 0 where
  pub message_ack : bit_and n ack_flag ≡ 0
  pub message_seq : bit_and n seq_mask ≡ n
  pub message_nop : bit_and n nop_flag ≡ 0
  pub nop : bit_or n nop_flag ≡ n + 64
  pub ack : bit_or n ack_flag ≡ n + 128
  pub nop_ack : bit_and (n + 64) ack_flag ≡ 0
  pub nop_seq : bit_and (n + 64) seq_mask ≡ n
  pub nop_nop : (bit_and (n + 64) nop_flag == 0) ≡ false
  pub ack_ack : (bit_and (n + 128) ack_flag == 0) ≡ false
  pub ack_seq : bit_and (n + 128) seq_mask ≡ n

pub headers : (n : ℕ) → IsSeq n → Headers n
headers n h = ground (arith, all_below_sound 64 header_test n header_table h)
