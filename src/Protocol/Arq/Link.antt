-- ===== src/Protocol/Arq/Link.antt =====
-- Two ends of an ArqLayer (src/protocol.cpp) over a link that loses frames: one end sends, the
-- other has nothing of its own to send and answers with acknowledgements only.
use libstored.Prelude.{true, List, [], ◌∷◌, ◌++◌, ◌≢◌}
use libstored.Protocol.{Bytes, Chunk, frames}
use libstored.Protocol.Arq.{Arq, Effect, down, up, encode, decode, flush, keep_alive, front}

-- The calls of the layer below, and the messages for the layer above, among the effects.
unfoldable pub downs : List Effect → List Chunk
downs [] = []
downs (down b last ∷ es) = (b, last) ∷ downs es
downs (Effect.up b ∷ es) = downs es
downs (Effect.event e ∷ es) = downs es
downs (Effect.assert_failed ∷ es) = downs es
downs (Effect.aborted ∷ es) = downs es
downs (Effect.reset_below ∷ es) = downs es

unfoldable pub ups : List Effect → List Bytes
ups [] = []
ups (up b ∷ es) = b ∷ ups es
ups (Effect.down b last ∷ es) = ups es
ups (Effect.event e ∷ es) = ups es
ups (Effect.assert_failed ∷ es) = ups es
ups (Effect.aborted ∷ es) = ups es
ups (Effect.reset_below ∷ es) = ups es

-- The layer above only takes messages.
unfoldable pub silent : Bytes → List Chunk
silent m = []

-- A list of frames, decoded one by one.
unfoldable pub decode_frames : Arq → List Bytes → Arq
decode_frames s [] = s
decode_frames s (f ∷ fs) = decode_frames (decode silent s f).0 fs

-- The state of both ends, with the messages that went in and those that came out.
pub record Session : Type 0 where
  pub sender : Arq
  pub receiver : Arq
  pub pushed : List Bytes
  pub delivered : List Bytes

-- The frame that the sender has out arrives.
unfoldable pub arrive : Session → Session
arrive p =
    let (r, effects) = decode silent p.receiver (front p.sender.encode_queue) in
    record p { receiver = r; delivered = p.delivered ++ ups effects }

-- It arrives, and the answer arrives too.
unfoldable pub exchange : Session → Session
unfolding arrive
exchange p =
    let (r, effects) = decode silent p.receiver (front p.sender.encode_queue) in
    let p1 = arrive p in record p1 { sender = decode_frames p.sender (frames [] (downs effects)) }

-- What can happen. Whatever the sender transmits in a step of its own is lost; a transmission that
-- arrives, with its answer lost or not, is a step of the link.
pub data Step : Session → Session → Type 0 where
  push :
      (p : Session) (m : Bytes)
      → Step p (record p { sender = (encode p.sender m true).0; pushed = p.pushed ++ (m ∷ []) })
  poll : (p : Session) → Step p (record p { sender = (flush true p.sender).0 })
  probe : (p : Session) → Step p (record p { sender = (keep_alive p.sender).0 })
  answer_lost : (p : Session) → p.sender.encode_queue ≢ [] → Step p (arrive p)
  answered : (p : Session) → p.sender.encode_queue ≢ [] → Step p (exchange p)

pub data Reach (p : Session) : Session → Type 0 where
  here : Reach p p
  next : {q r : Session} → Reach p q → Step q r → Reach p r
