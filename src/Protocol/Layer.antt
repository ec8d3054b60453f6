-- ===== src/Protocol/Layer.antt =====
-- ProtocolLayer (include/libstored/protocol.h): a layer of a stack, what it is to carry messages
-- to its peer, and two layers stacked.
pub mod Stacked
use libstored.Prelude.{ℕ, ◌≡◌, Bool, true, false, List, [], ◌∷◌, ◌++◌, All, if◌then◌else◌}
use libstored.Protocol.{Bytes, Chunk}

-- The virtual functions of a layer. `encode` returns the calls that it makes of the layer below,
-- and `decode` the buffers that it passes to the layer above. A peer's decode state is a type of
-- its own, since it lives at the other end.
pub record Layer : Type 1 where
  pub Sender : Type 0
  pub Receiver : Type 0
  pub encode : Sender → Bytes → Bool → Sender × List Chunk
  pub decode : Receiver → Bytes → Receiver × List Bytes

-- The calls of a sequence, one after the other.
unfoldable pub encode_all : (l : Layer) → l.Sender → List Chunk → l.Sender × List Chunk
encode_all l s [] = (s, [])
encode_all l s ((b, last) ∷ cs) =
    let (s1, out) = l.encode s b last in let (s2, rest) = encode_all l s1 cs in (s2, out ++ rest)

unfoldable pub decode_all : (l : Layer) → l.Receiver → List Bytes → l.Receiver × List Bytes
decode_all l r [] = (r, [])
decode_all l r (f ∷ fs) =
    let (r1, up) = l.decode r f in let (r2, rest) = decode_all l r1 fs in (r2, up ++ rest)

-- The peer at the other end of a link that hands over whole frames: `pend` is the part of a frame
-- that is on its way.
unfoldable pub deliver :
    (l : Layer) → l.Receiver → Bytes → List Chunk → l.Receiver × Bytes × List Bytes
deliver l r pend [] = (r, pend, [])
deliver l r pend ((b, false) ∷ cs) = deliver l r (pend ++ b) cs
deliver l r pend ((b, true) ∷ cs) =
    let (r1, up) = l.decode r (pend ++ b) in
    let (r2, pend', rest) = deliver l r1 [] cs in (r2, pend', up ++ rest)

-- A layer that carries messages. `Sync s r acc pend` relates the two ends while `acc` is the part
-- of a message that was encoded and `pend` the part of a frame that is on its way. One `encode`
-- keeps the ends in step, and hands the peer the message exactly when it was the last part.
pub record Carries (l : Layer) : Type 1 where
  pub Accepts : ℕ → Type 0
  pub Emits : ℕ → Type 0
  pub Sync : l.Sender → l.Receiver → Bytes → Bytes → Type 0
  pub step :
      (s : l.Sender) (r : l.Receiver) (acc pend b : Bytes) (last : Bool)
      → Sync s r acc pend
      → All Accepts b
      → let (s', out) = l.encode s b last in
        let (r', pend', up) = deliver l r pend out in
        (up ≡ (if last then (acc ++ b) ∷ [] else []))
        × Sync s' r' (if last then [] else acc ++ b) pend'
        × All (λ (c : Chunk). All Emits c.0) out

-- A layer on top of another: what the upper one emits goes through the lower one, and what the
-- lower one decodes goes to the upper one.
abbrev pub stack : Layer → Layer → Layer
stack up down = record {
  Sender = up.Sender × down.Sender;
  Receiver = up.Receiver × down.Receiver;
  encode = λ s b last.
      let (su, mid) = up.encode s.0 b last in
      let (sd, out) = encode_all down s.1 mid in ((su, sd), out);
  decode = λ r f.
      let (rd, mid) = down.decode r.1 f in let (ru, out) = decode_all up r.0 mid in ((ru, rd), out);
}
