-- ===== src/Protocol/Terminal/Machine.antt =====
-- TerminalLayer::decode (src/protocol.cpp) as a machine that takes one character at a time: what
-- it makes of the debug messages does not depend on how the stream is cut into buffers.
use libstored.Prelude.{
  ℕ, ◌≡◌, refl, sym, ap, List, [], ◌∷◌, ◌++◌, ◌+◌, ◌==◌, if◌then◌else◌, append_assoc, append-nil,
  arith, length, ltb, drop, ◌∙◌, Bool-cases, inl, inr,
}
use libstored.Protocol.{Bytes}
use libstored.Protocol.Terminal.{
  State, Decoder, Event, message, non_debug, round, rounds, decode, messages, esc, esc_start,
  esc_end, outside, terminal_layer,
}

-- One character.
unfoldable pub take_char : Decoder → ℕ → Decoder × List Bytes
take_char d c = elim (d.state) [
  | State.normal ↦ (if c == esc then record d { state = State.normal_esc } else d, [])
  | State.normal_esc ↦
      if c == esc_start
      then (record d { state = State.debug }, [])
      else (record d { state = State.normal }, [])
  | State.debug ↦
      if c == esc
      then (record d { state = State.debug_esc }, [])
      else (record d { buffer = d.buffer ++ (c ∷ []) }, [])
  | State.debug_esc ↦
      if c == esc_end
      then (record { state = State.normal; buffer = [] }, d.buffer ∷ [])
      else (record { state = State.debug; buffer = (d.buffer ++ (esc ∷ [])) ++ (c ∷ []) }, [])
]

unfoldable pub take_chars : Decoder → Bytes → Decoder × List Bytes
take_chars d [] = (d, [])
take_chars d (c ∷ cs) =
    let (d1, out) = take_char d c in let (d2, more) = take_chars d1 cs in (d2, out ++ more)

messages-append : (xs ys : List Event) → messages (xs ++ ys) ≡ messages xs ++ messages ys
unfolding messages
messages-append [] ys = refl
messages-append (message m ∷ xs) ys = rw (messages-append xs ys)
messages-append (non_debug m ∷ xs) ys = messages-append xs ys

round-take_char :
    (text : Bytes) (i c : ℕ) (d : Decoder) (offset : ℕ)
    → let (d', out, offset') = round text i c d offset in ((d', messages out) ≡ take_char d c)
unfolding round take_char messages
round-take_char text i c d offset = ground arith

rounds-take_chars :
    (text : Bytes) (i : ℕ) (rest : Bytes) (d : Decoder) (offset : ℕ)
    → let (d', out, offset') = rounds text i rest d offset in
      ((d', messages out) ≡ take_chars d rest)
unfolding rounds take_chars
rounds-take_chars text i [] d offset = unfold messages in refl
rounds-take_chars text i (c ∷ rest) d offset =
    let (d1, out, offset1) = round text i c d offset in
    rw
      (
        messages-append out (rounds text (i + 1) rest d1 offset1).1,
        ← round-take_char text i c d offset,
        ← rounds-take_chars text (i + 1) rest d1 offset1,
      )
      refl

-- The debug messages of a buffer, and the state that it leaves, are those of the machine.
pub decode-take_chars :
    (d : Decoder) (text : Bytes) → terminal_layer.decode d text ≡ take_chars d text
unfolding decode
decode-take_chars d text = elim (Bool-cases (ltb (rounds text 0 text d start).2 (length text))) [
  | inl e ↦
      rw
        (
          e,
          messages-append (rounds text 0 text d start).1
              (non_debug (drop (rounds text 0 text d start).2 text) ∷ []),
          no_message (drop (rounds text 0 text d start).2 text),
          append-nil,
        )
        (rounds-take_chars text 0 text d start)
  | inr e ↦ rw e (rounds-take_chars text 0 text d start)
]
  where
    start : ℕ
    start = if outside d.state then 0 else length text

    no_message : (b : Bytes) → messages (non_debug b ∷ []) ≡ []
    no_message b = unfold messages in refl

pub take_chars-append :
    (d : Decoder) (a b : Bytes)
    → take_chars d (a ++ b)
      ≡ (let (d1, u1) = take_chars d a in let (d2, u2) = take_chars d1 b in (d2, u1 ++ u2))
unfolding take_chars
take_chars-append d [] b = refl
take_chars-append d (c ∷ a) b = rw (take_chars-append (take_char d c).0 a b, append_assoc)

-- However a stream is cut into two buffers, the decoder ends in the same state and hands over the
-- same debug messages, as if it had come as one buffer.
pub terminal_decode-append :
    (d : Decoder) (a b : Bytes)
    → terminal_layer.decode d (a ++ b) ≡ (
        let (d1, up1) = terminal_layer.decode d a in
        let (d2, up2) = terminal_layer.decode d1 b in (d2, up1 ++ up2))
terminal_decode-append d a b =
    decode-take_chars d (a ++ b)
    ∙ take_chars-append d a b
    ∙ sym (
        ap
          (λ (p : Decoder × List Bytes).
            ((terminal_layer.decode p.0 b).0, p.1 ++ (terminal_layer.decode p.0 b).1))
          (decode-take_chars d a)
        ∙ ap (λ (p : Decoder × List Bytes). (p.0, (take_chars d a).1 ++ p.1))
            (decode-take_chars (take_chars d a).0 b))
