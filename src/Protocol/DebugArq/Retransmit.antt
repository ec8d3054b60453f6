-- ===== src/Protocol/DebugArq/Retransmit.antt =====
-- DebugArqLayer::decode (src/protocol.cpp): a command that comes again.
use libstored.Prelude.{
  ℕ, ◌≡◌, ◌≢◌, refl, sym, ap, ◌∙◌, true, false, List, [], ◌∷◌, ◌++◌, ◌==◌, Bool-cases, inl, inr,
  some,
}
use libstored.Prelude.{◌^◌, ◌<◌, arith, bit_and, all_below, all_below_sound, ltb}
use libstored.Protocol.{Bytes}
use libstored.Protocol.DebugArq.{
  DebugArq, DecodeState, EncodeState, Effect, Call, check, decode, take_reset, take_next_command,
  take_retransmit, take_command, set_purgeable_response, resend, reset_flag,
}
use libstored.Protocol.DebugArq.Seq.{
  next_seq, encode_seq, encode_27, decode_seq, decode_seq-encode_seq,
}

no_flag_table : all_below 128 (λ b. bit_and b reset_flag == 0) ≡ true
unfolding all_below
no_flag_table = refl

-- The first byte of a sequence number leaves room for the reset flag.
encode_seq-first :
    (seq : ℕ) → seq < 2 ^ 27 → (b : ℕ) × (bs : Bytes) × (encode_seq seq ≡ b ∷ bs) × (b < 128)
unfolding encode_seq encode_27
encode_seq-first seq h = rw fits (elim (Bool-cases (ltb seq 0x40)) [
  | inl e ↦ rw e (_, _, refl, omega arith)
  | inr e ↦ rw e (elim (Bool-cases (ltb seq 0x2000)) [
    | inl e2 ↦ rw e2 (_, _, refl, omega arith)
    | inr e2 ↦ rw e2 (elim (Bool-cases (ltb seq 0x100000)) [
      | inl e3 ↦ rw e3 (_, _, refl, omega arith)
      | inr e3 ↦ rw e3 (_, _, refl, omega arith)
    ])
  ])
])
  where
    fits : ltb seq 0x8000000 ≡ true
    fits = ground arith

next_seq-other : (seq : ℕ) → seq < 2 ^ 27 → next_seq seq ≢ seq
unfolding next_seq
next_seq-other seq h = ground arith

-- Between a command that was answered and the next one, with the answer in the buffer.
pub record Answered (s : DebugArq) (seq : ℕ) : Type 0 where
  pub decoded : s.decode_state ≡ DecodeState.decoded
  pub buffered : s.encode_state ≡ EncodeState.idle
  pub start : s.decode_seq_start ≡ seq
  pub expected : s.decode_seq ≡ next_seq seq

-- What such a layer does with the same command: the answer goes out again, and nothing else. All
-- the fields are as before.
abbrev pub Resends : DebugArq → DebugArq × List Effect → Type 0
Resends s r = (r.1 ≡ resend s.encode_buffer) × (r.0 ≡ s)

command_again :
    (respond : Bytes → List Call) (s : DebugArq) (seq : ℕ) (rest : Bytes)
    → seq < 2 ^ 27
    → Answered s seq
    → let (s2, out2) = take_next_command s seq in
      let (s3, out3) = take_command respond s2 seq (some rest) in Resends s (s3, out2 ++ out3)
unfolding take_next_command take_retransmit take_command set_purgeable_response check
command_again respond s seq rest h a =
    rw (a.decoded, a.buffered, other, same)
      (rw next (
        refl,
        ap (λ e. record s { decode_state = DecodeState.decoded; encode_state = e }) a.buffered,
      ))
  where
    other : (seq == s.decode_seq) ≡ false
    other = ground (arith, a.expected, next_seq-other seq h)

    same : (seq == s.decode_seq_start) ≡ true
    same = ground (arith, a.start)

    next : (next_seq seq == s.decode_seq) ≡ true
    next = ground (arith, a.expected)

no_reset :
    (s : DebugArq) (flags seq : ℕ)
    → (bit_and flags reset_flag == 0) ≡ true
    → take_reset s flags seq ≡ (s, [])
unfolding take_reset
no_reset s flags seq e = rw e refl

decode_again :
    (respond : Bytes → List Call) (s : DebugArq) (b : ℕ) (bs rest : Bytes) (seq : ℕ)
    → seq < 2 ^ 27
    → Answered s seq
    → decode_seq 0 0x40 (b ∷ bs) ≡ (seq, some rest)
    → (bit_and b reset_flag == 0) ≡ true
    → Resends s (decode respond s (b ∷ bs))
unfolding decode
decode_again respond s b bs rest seq h a e f =
    rw (e, no_reset s b seq f) (command_again respond s seq rest h a)

-- A command of one part that was answered from the buffer and comes again is not handed to the
-- layer above: its answer is sent once more, as it was, and the layer is in the same state as before,
-- in all its fields. The payload and the layer above are arbitrary.
pub decode_retransmitted :
    (respond : Bytes → List Call) (s : DebugArq) (seq : ℕ) (payload : Bytes)
    → seq < 2 ^ 27
    → Answered s seq
    → Resends s (decode respond s (encode_seq seq ++ payload))
decode_retransmitted respond s seq payload h a =
    let (b, bs, shape, small) = encode_seq-first seq h in
    rw shape (
      decode_again respond s b (bs ++ payload) payload seq h a
        (ap (λ t. decode_seq 0 0x40 (t ++ payload)) (sym shape)
          ∙ decode_seq-encode_seq seq payload h)
        (all_below_sound 128 (λ x. bit_and x reset_flag == 0) b no_flag_table small))
