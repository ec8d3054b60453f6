-- ===== src/Protocol/DebugArq/Seq.antt =====
-- DebugArqLayer::nextSeq, encodeSeq and decodeSeq (src/protocol.cpp): sequence numbers of 27 bits
-- in one to four bytes. A mask of low bits is written as a remainder, and `|` of bits that do not
-- overlap as a sum. The source asserts that it writes four bytes at most.
use libstored.Prelude.{
  ℕ, ◌≡◌, ◌∙◌, true, [], ◌∷◌, ◌++◌, ◌==◌, if◌then◌else◌, Option, none, some, ltb, Bool-cases, inl,
  inr,
}
use libstored.Prelude.{◌+◌, ◌-◌, ◌*◌, ◌/◌, ◌%◌, ◌^◌, ◌<◌, arith}
use libstored.Protocol.{Bytes}

unfoldable pub next_seq : ℕ → ℕ
next_seq seq = let next = (seq + 1) % 2 ^ 32 % 0x8000000 in if next == 0 then 1 else next

unfoldable pub encode_27 : ℕ → Bytes
encode_27 seq =
    if ltb seq 0x40
    then (seq % 0x40) ∷ []
    else if ltb seq 0x2000
    then (0x40 + seq / 2 ^ 7 % 0x40) ∷ (seq % 0x80) ∷ []
    else if ltb seq 0x100000
    then (0x40 + seq / 2 ^ 14 % 0x40) ∷ (0x80 + seq / 2 ^ 7 % 0x80) ∷ (seq % 0x80) ∷ []
    else (0x40 + seq / 2 ^ 21 % 0x40)
      ∷ (0x80 + seq / 2 ^ 14 % 0x80)
      ∷ (0x80 + seq / 2 ^ 7 % 0x80)
      ∷ (seq % 0x80)
      ∷ []

-- The last branch calls the function again, with the number in range.
unfoldable pub encode_seq : ℕ → Bytes
unfolding encode_27
encode_seq seq = if ltb seq 0x8000000 then encode_27 seq else encode_27 (seq % 0x8000000)

-- The loop of `decodeSeq`, with the number so far and the flag that says that more follows. The
-- rest of the buffer is the second component; behind its end there is none.
unfoldable pub decode_seq : ℕ → ℕ → Bytes → ℕ × Option Bytes
decode_seq seq flag [] = (2 ^ 32 - 1, none)
decode_seq seq flag (b ∷ bs) =
    let seq' = seq * 2 ^ 7 % 2 ^ 32 + b % flag in
    let more = decode_seq seq' 0x80 bs in if b / flag % 2 == 0 then (seq', some bs) else more

-- A byte without the flag is the last one; one with it is followed by others.
decode_last :
    (n flag b m : ℕ) (bs : Bytes)
    → b / flag % 2 ≡ 0
    → n * 2 ^ 7 % 2 ^ 32 + b % flag ≡ m
    → decode_seq n flag (b ∷ bs) ≡ (m, some bs)
unfolding decode_seq
decode_last n flag b m bs e v = ground (arith, e, v)

decode_more :
    (n flag b m : ℕ) (bs : Bytes)
    → b / flag % 2 ≡ 1
    → n * 2 ^ 7 % 2 ^ 32 + b % flag ≡ m
    → decode_seq n flag (b ∷ bs) ≡ decode_seq m 0x80 bs
unfolding decode_seq
decode_more n flag b m bs e v = ground (arith, e, v)

-- Every sequence number is read back from its bytes, whatever follows them.
pub decode_seq-encode_seq :
    (seq : ℕ) (rest : Bytes)
    → seq < 2 ^ 27
    → decode_seq 0 0x40 (encode_seq seq ++ rest) ≡ (seq, some rest)
unfolding encode_seq encode_27
decode_seq-encode_seq seq rest h = rw fits (elim (Bool-cases (ltb seq 0x40)) [
  | inl e ↦ rw e (decode_last 0 0x40 (seq % 0x40) seq rest (omega arith) (ground arith))
  | inr e ↦ rw e (elim (Bool-cases (ltb seq 0x2000)) [
    | inl e2 ↦ rw e2 (
        decode_more 0 0x40 (0x40 + seq / 2 ^ 7 % 0x40) (seq / 2 ^ 7) _ (omega arith) (ground arith)
        ∙ last)
    | inr e2 ↦ rw e2 (elim (Bool-cases (ltb seq 0x100000)) [
      | inl e3 ↦ rw e3 (
          decode_more 0 0x40 (0x40 + seq / 2 ^ 14 % 0x40) (seq / 2 ^ 14) _ (omega arith)
            (ground arith)
          ∙ third
          ∙ last)
      | inr e3 ↦ rw e3 (
          decode_more 0 0x40 (0x40 + seq / 2 ^ 21 % 0x40) (seq / 2 ^ 21) _ (omega arith)
            (ground arith)
          ∙ decode_more (seq / 2 ^ 21) 0x80 (0x80 + seq / 2 ^ 14 % 0x80) (seq / 2 ^ 14) _
              (omega arith) (omega arith)
          ∙ third
          ∙ last)
    ])
  ])
])
  where
    fits : ltb seq 0x8000000 ≡ true
    fits = ground arith

    last : decode_seq (seq / 2 ^ 7) 0x80 ((seq % 0x80) ∷ rest) ≡ (seq, some rest)
    last = decode_last (seq / 2 ^ 7) 0x80 (seq % 0x80) seq rest (omega arith) (omega arith)

    third :
        decode_seq (seq / 2 ^ 14) 0x80 ((0x80 + seq / 2 ^ 7 % 0x80) ∷ (seq % 0x80) ∷ rest)
        ≡ decode_seq (seq / 2 ^ 7) 0x80 ((seq % 0x80) ∷ rest)
    third =
        decode_more (seq / 2 ^ 14) 0x80 (0x80 + seq / 2 ^ 7 % 0x80) (seq / 2 ^ 7) _ (omega arith)
          (omega arith)
