-- ===== src/Protocol/Arq/Delivery/Prefix.antt =====
-- ArqLayer (src/protocol.cpp): every message arrives once and in order, whatever the link loses.
use libstored.Prelude.{ℕ, ◌≡◌, List, [], ◌∷◌, ◌++◌, append_assoc, true}
use libstored.Protocol.{Bytes}
use libstored.Protocol.Arq.{Arq, next_seq, encode, flush, keep_alive}
use libstored.Protocol.Arq.Seq.{IsSeq}
use libstored.Protocol.Arq.Link.{Session}
use libstored.Protocol.Arq.Delivery.Ends.{
  Sends, Expects, encode-Sends, flush-Sends, keep_alive-Sends_empty, keep_alive-Sends_some,
}
use libstored.Protocol.Arq.Delivery.Numbered.{
  Item, message, dummy, wires, after, texts, wires-append, after-append, texts-append_message,
}

-- The receiver waits for the message in front, or it has it and the acknowledgement got lost.
pub data InOrder (p : Session) : Type 0 where
  waiting :
      (f : ℕ) (is : List Item)
      → IsSeq f
      → Sends p.sender (wires f is) (after f is)
      → Expects p.receiver f
      → p.pushed ≡ p.delivered ++ texts is
      → InOrder p
  taken :
      (f : ℕ) (i : Item) (is : List Item)
      → IsSeq f
      → Sends p.sender (wires f (i ∷ is)) (after f (i ∷ is))
      → Expects p.receiver (next_seq f)
      → p.pushed ≡ p.delivered ++ texts is
      → InOrder p

push-Sends :
    (s : Arq) (m : Bytes) (f : ℕ) (is : List Item)
    → Sends s (wires f is) (after f is)
    → Sends
        (encode s m true).0
        (wires f (is ++ (message m ∷ [])))
        (after f (is ++ (message m ∷ [])))
push-Sends s m f is h =
    rw (wires-append f is (message m), after-append f is (message m)) (encode-Sends s m h)

push-texts :
    (xs ys : List Bytes) (m : Bytes) (is : List Item)
    → xs ≡ ys ++ texts is
    → xs ++ (m ∷ []) ≡ ys ++ texts (is ++ (message m ∷ []))
push-texts xs ys m is e = rw (e, texts-append_message is m) (append_assoc ys (texts is) (m ∷ []))

pub push-InOrder :
    (p : Session) (m : Bytes)
    → InOrder p
    → InOrder (record p { sender = (encode p.sender m true).0; pushed = p.pushed ++ (m ∷ []) })
push-InOrder p m (waiting f is hf s r e) =
    waiting f (is ++ (message m ∷ [])) hf (push-Sends p.sender m f is s) r
      (push-texts p.pushed p.delivered m is e)
push-InOrder p m (taken f i is hf s r e) =
    taken f i (is ++ (message m ∷ [])) hf (push-Sends p.sender m f (i ∷ is) s) r
      (push-texts p.pushed p.delivered m is e)

pub poll-InOrder :
    (p : Session) → InOrder p → InOrder (record p { sender = (flush true p.sender).0 })
poll-InOrder p (waiting f is hf s r e) = waiting f is hf (flush-Sends p.sender s) r e
poll-InOrder p (taken f i is hf s r e) = taken f i is hf (flush-Sends p.sender s) r e

some-Sends :
    (s : Arq) (f : ℕ) (i : Item) (is : List Item)
    → Sends s (wires f (i ∷ is)) (after f (i ∷ is))
    → Sends (keep_alive s).0 (wires f (i ∷ is)) (after f (i ∷ is))
unfolding wires
some-Sends s f i is h = keep_alive-Sends_some s h

pub probe-InOrder :
    (p : Session) → InOrder p → InOrder (record p { sender = (keep_alive p.sender).0 })
unfolding wires after texts
probe-InOrder p (waiting f [] hf s r e) =
    waiting f (dummy ∷ []) hf (keep_alive-Sends_empty p.sender s) r e
probe-InOrder p (waiting f (i ∷ is) hf s r e) =
    waiting f (i ∷ is) hf (some-Sends p.sender f i is s) r e
probe-InOrder p (taken f i is hf s r e) = taken f i is hf (some-Sends p.sender f i is s) r e
