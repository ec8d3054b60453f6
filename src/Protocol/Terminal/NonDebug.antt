-- ===== src/Protocol/Terminal/NonDebug.antt =====
-- nonDebugEncode of TerminalLayer (src/protocol.cpp), and what the peer makes of it.
use libstored.Prelude.{ℕ, ◌≡◌, refl, sym, ap, ap₂, ◌∙◌, Bool, true, false, List, [], ◌∷◌, ◌++◌, All}
use mathlib.Core.Path.{subst}
use libstored.Prelude.{◌==◌, ◌+◌, ltb, arith, append_assoc, append-nil, length, length-append}
use libstored.Protocol.{Bytes, Chunk, frames, pending}
use libstored.Protocol.Layer.{encode_all, deliver}
use libstored.Protocol.Layer.Stacked.{AllBytes, carries_all, deliver-append}
use libstored.Protocol.Parts.{written, piecewise-Carries}
use libstored.Protocol.Terminal.{
  State, Decoder, initial, round, rounds, decode, message, encode, non_debug_encode, esc, esc_start,
  esc_end, terminal_layer,
}
use libstored.Protocol.Terminal.Carry.{IsPlain, TerminalSync, terminal-Piecewise, written_whole}

-- The loop of `decode` from a character of a frame on, with no other data noted before it.
rounds_frame :
    (text : Bytes) (i : ℕ) (m buffer : Bytes) (offset : ℕ)
    → All IsPlain m
    → rounds text i
        (m ++ (esc ∷ esc_end ∷ []))
        (record { state = State.debug; buffer = buffer })
        offset
      ≡ (initial, message (buffer ++ m) ∷ [], i + length m + 2)
unfolding rounds round
rounds_frame text i [] buffer offset ok =
    ap₂ (λ b n. (initial, message b ∷ [], n)) (sym (append-nil buffer)) (omega arith)
rounds_frame text i (c ∷ m) buffer offset ok =
    let plain : (c == esc) ≡ false = ground arith in
    rw (plain, rounds_frame text (i + 1) m (buffer ++ (c ∷ [])) offset ok.1, append_assoc)
      (ap (λ n. (initial, message (buffer ++ (c ∷ m)) ∷ [], n)) (omega arith))

-- A frame is one call of the layer above, and none of the receptor of other data.
decode_frame :
    (m : Bytes)
    → All IsPlain m
    → decode initial (esc ∷ esc_start ∷ m ++ (esc ∷ esc_end ∷ [])) ≡ (initial, message m ∷ [])
unfolding decode rounds round libstored.Prelude.sub_size
decode_frame m ok =
    let text = esc ∷ esc_start ∷ m ++ (esc ∷ esc_end ∷ []) in
    let whole : ltb (2 + length m + 2) (length text) ≡ false =
      ground (arith, length-append m (esc ∷ esc_end ∷ [])) in
    rw (rounds_frame text 2 m [] (length text) ok, whole) refl

-- What an idle sender has sent leaves nothing on its way.
idle_sent :
    (cs : List Chunk)
    → AllBytes IsPlain cs
    → let (s, sent) = encode_all terminal_layer false cs in
      s ≡ false → deliver terminal_layer initial [] sent ≡ (initial, [], frames [] cs)
idle_sent cs ok e =
    let (d, pend, out) = deliver terminal_layer initial [] (encode_all terminal_layer false cs).1 in
    let (up, sync, emits) =
      carries_all (piecewise-Carries terminal-Piecewise) cs false initial [] [] (refl, refl, refl)
        ok in
    let at_rest = subst (λ s. TerminalSync s d (pending [] cs) pend) e sync in
    ap₂ (λ (d : Decoder) (p : Bytes × List Bytes). (d, p.0, p.1)) at_rest.0
      (ap₂ (λ (x : Bytes) (y : List Bytes). (x, y)) at_rest.2 up)

-- `nonDebugEncode` of data without escape characters, after any calls of `encode` with such data of
-- which the last completed its message, so that the assertion of `nonDebugEncode` holds: the peer's
-- `decode` hands the data to the layer above as one more debug message, and its receptor of
-- non-debug data gets none of it.
pub non_debug_encode_framed :
    (cs : List Chunk) (m : Bytes)
    → AllBytes IsPlain cs
    → All IsPlain m
    → (encode_all terminal_layer false cs).0 ≡ false
    → let (s, sent) = encode_all terminal_layer false cs in
      let more = (non_debug_encode s m).1 in
      ((deliver terminal_layer initial [] (sent ++ more)).2 ≡ frames [] cs ++ (m ∷ []))
      × (decode initial (written more) ≡ (initial, message m ∷ []))
unfolding non_debug_encode
non_debug_encode_framed cs m okcs ok idle =
    rw
      (
        deliver-append terminal_layer initial [] (encode_all terminal_layer false cs).1
            (encode (encode_all terminal_layer false cs).0 m true).1,
        idle_sent cs okcs idle,
        idle,
        written_whole m,
        decode_frame m ok,
        ((piecewise-Carries terminal-Piecewise).step false initial [] [] m true (refl, refl, refl)
            ok).0,
      )
      (refl, refl)
