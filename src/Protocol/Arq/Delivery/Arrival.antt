-- ===== src/Protocol/Arq/Delivery/Arrival.antt =====
-- A frame of ArqLayer (src/protocol.cpp) that arrives, with and without its answer.
use libstored.Prelude.{ℕ, ◌≡◌, sym, ap, ◌∙◌, List, [], ◌∷◌, ◌++◌, ◌+◌, append_assoc, append-nil}
use libstored.Protocol.{frames}
use libstored.Protocol.Arq.{Arq, next_seq, decode, front}
use libstored.Protocol.Arq.Seq.{IsSeq, next_seq_bounds}
use libstored.Protocol.Arq.Link.{Session, arrive, exchange, downs, silent, decode_frames}
use libstored.Protocol.Arq.Delivery.Ends.{
  Sends, Expects, Answers, decode_ack, decode_expected, decode_repeated,
}
use libstored.Protocol.Arq.Delivery.Numbered.{
  Item, header, body, wires, after, texts, header_ack, header_seq, payload-header, texts-cons,
}
use libstored.Protocol.Arq.Delivery.Prefix.{InOrder, waiting, taken}

-- What the receiver does with the message in front, if it is the one that it expects or not.
expected-Answers :
    (r : Arq) (f : ℕ) (i : Item)
    → IsSeq f
    → Expects r f
    → Answers r (header f i ∷ body i) (next_seq f) (texts (i ∷ [])) f
expected-Answers r f i hf h =
    rw (sym (payload-header f i hf))
      (decode_expected r (header f i) (body i) f hf (header_ack f i hf) (header_seq f i hf) h)

repeated-Answers :
    (r : Arq) (f : ℕ) (i : Item)
    → IsSeq f
    → Expects r (next_seq f)
    → Answers r (header f i ∷ body i) (next_seq f) [] f
repeated-Answers r f i hf h =
    decode_repeated r (header f i) (body i) f hf (header_ack f i hf) (header_seq f i hf) h

-- The session where the sender has `i` in front and the receiver answers with `texts`.
pub record Arrives (p : Session) (f : ℕ) (i : Item) (is : List Item) : Type 0 where
  pub bound : IsSeq f
  pub sends : Sends p.sender (wires f (i ∷ is)) (after f (i ∷ is))
  pub expects : Expects (arrive p).receiver (next_seq f)
  pub in_order : (arrive p).pushed ≡ (arrive p).delivered ++ texts is
  pub answer :
      frames [] (downs (decode silent p.receiver (front p.sender.encode_queue)).1)
      ≡ ((f + 128) ∷ []) ∷ []

pub arrive_expected :
    (p : Session) (f : ℕ) (i : Item) (is : List Item)
    → IsSeq f
    → Sends p.sender (wires f (i ∷ is)) (after f (i ∷ is))
    → Expects p.receiver f
    → p.pushed ≡ p.delivered ++ texts (i ∷ is)
    → Arrives p f i is
unfolding arrive wires
arrive_expected p f i is hf s r e = record {
  bound = hf;
  sends = s;
  expects = rw (s.0) (answers.0);
  in_order =
      rw (s.0, answers.1)
        (e
          ∙ ap (λ t. p.delivered ++ t) (texts-cons i is)
          ∙ sym (append_assoc p.delivered (texts (i ∷ [])) (texts is)));
  answer = rw (s.0) (answers.2);
}
  where
    answers : Answers p.receiver (header f i ∷ body i) (next_seq f) (texts (i ∷ [])) f
    answers = expected-Answers p.receiver f i hf r

pub arrive_repeated :
    (p : Session) (f : ℕ) (i : Item) (is : List Item)
    → IsSeq f
    → Sends p.sender (wires f (i ∷ is)) (after f (i ∷ is))
    → Expects p.receiver (next_seq f)
    → p.pushed ≡ p.delivered ++ texts is
    → Arrives p f i is
unfolding arrive wires
arrive_repeated p f i is hf s r e = record {
  bound = hf;
  sends = s;
  expects = rw (s.0) (answers.0);
  in_order = rw (s.0, answers.1, append-nil p.delivered) e;
  answer = rw (s.0) (answers.2);
}
  where
    answers : Answers p.receiver (header f i ∷ body i) (next_seq f) [] f
    answers = repeated-Answers p.receiver f i hf r

-- The answer removes the message in front.
pub exchanged-Sends :
    (p : Session) (f : ℕ) (i : Item) (is : List Item)
    → Arrives p f i is
    → Sends (exchange p).sender (wires (next_seq f) is) (after (next_seq f) is)
unfolding exchange wires after decode_frames
exchanged-Sends p f i is a =
    rw (a.answer)
      (decode_ack p.sender f (header f i) (body i) a.bound (header_seq f i a.bound) a.sends)

pub arrive-InOrder :
    (p : Session) (f : ℕ) (i : Item) (is : List Item) → Arrives p f i is → InOrder (arrive p)
unfolding arrive
arrive-InOrder p f i is a = taken f i is a.bound a.sends a.expects a.in_order

pub exchange-InOrder :
    (p : Session) (f : ℕ) (i : Item) (is : List Item) → Arrives p f i is → InOrder (exchange p)
unfolding arrive exchange
exchange-InOrder p f i is a =
    waiting (next_seq f) is ((next_seq_bounds f a.bound).1) (exchanged-Sends p f i is a) a.expects
      a.in_order
