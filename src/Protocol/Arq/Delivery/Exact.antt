-- ===== src/Protocol/Arq/Delivery/Exact.antt =====
-- ArqLayer (src/protocol.cpp): every message arrives exactly once and in order, whatever the link
-- loses.
use libstored.Prelude.{
  ℕ, zero, suc, ◌≡◌, ◌≢◌, refl, sym, ap, ◌∙◌, List, [], ◌∷◌, ◌++◌, ◌≤◌, length, arith, append-nil,
}
use libstored.Protocol.{Bytes}
use libstored.Protocol.Arq.{next_seq}
use libstored.Protocol.Arq.Seq.{IsSeq}
use libstored.Protocol.Arq.Link.{
  Session, Step, push, poll, probe, answer_lost, answered, Reach, here, next, arrive, exchange,
}
use libstored.Protocol.Arq.Delivery.Ends.{Sends, Expects}
use libstored.Protocol.Arq.Delivery.Numbered.{Item, wires, after, texts, texts-length}
use libstored.Protocol.Arq.Delivery.Prefix.{
  InOrder, waiting, taken, push-InOrder, poll-InOrder, probe-InOrder,
}
use libstored.Protocol.Arq.Delivery.Arrival.{
  Arrives, arrive_expected, arrive_repeated, arrive-InOrder, exchange-InOrder, exchanged-Sends,
}

-- Both ends after the exchange of the first keep-alives, with the same number and nothing sent.
abbrev pub Fresh : ℕ → Session → Type 0
Fresh n p = Sends p.sender [] n × Expects p.receiver n × (p.pushed ≡ []) × (p.delivered ≡ [])

answer_lost-InOrder : (p : Session) → p.sender.encode_queue ≢ [] → InOrder p → InOrder (arrive p)
unfolding wires
answer_lost-InOrder p ne (waiting f [] hf s r e) = absurd (ne (s.0))
answer_lost-InOrder p ne (waiting f (i ∷ is) hf s r e) =
    arrive-InOrder p f i is (arrive_expected p f i is hf s r e)
answer_lost-InOrder p ne (taken f i is hf s r e) =
    arrive-InOrder p f i is (arrive_repeated p f i is hf s r e)

answered-InOrder : (p : Session) → p.sender.encode_queue ≢ [] → InOrder p → InOrder (exchange p)
unfolding wires
answered-InOrder p ne (waiting f [] hf s r e) = absurd (ne (s.0))
answered-InOrder p ne (waiting f (i ∷ is) hf s r e) =
    exchange-InOrder p f i is (arrive_expected p f i is hf s r e)
answered-InOrder p ne (taken f i is hf s r e) =
    exchange-InOrder p f i is (arrive_repeated p f i is hf s r e)

Step-InOrder : {p q : Session} → Step p q → InOrder p → InOrder q
Step-InOrder (push p m) h = push-InOrder p m h
Step-InOrder (poll p) h = poll-InOrder p h
Step-InOrder (probe p) h = probe-InOrder p h
Step-InOrder (answer_lost p ne) h = answer_lost-InOrder p ne h
Step-InOrder (answered p ne) h = answered-InOrder p ne h

Reach-InOrder : {p q : Session} → Reach p q → InOrder p → InOrder q
Reach-InOrder here h = h
Reach-InOrder (next rs s) h = Step-InOrder s (Reach-InOrder rs h)

Fresh-InOrder : (n : ℕ) (p : Session) → IsSeq n → Fresh n p → InOrder p
unfolding wires after texts
Fresh-InOrder n p hn h = waiting n [] hn (h.0) (h.1) (ground arith)

InOrder-rest :
    (p : Session)
    → InOrder p
    → (rest : List Bytes) × (p.pushed ≡ p.delivered ++ rest)
      × (length rest ≤ length p.sender.encode_queue)
InOrder-rest p (waiting f is hf s r e) = (texts is, e, rw (s.0) (texts-length f is))
InOrder-rest p (taken f i is hf s r e) = (texts is, e, shorter)
  where
    queue : length p.sender.encode_queue ≡ length (wires f (i ∷ is))
    queue = ap length (s.0)

    shorter : length (texts is) ≤ length p.sender.encode_queue
    shorter = unfold wires in omega (arith, queue, texts-length (next_seq f) is)

-- Of two ends that start with the same number and nothing sent, after any sequence of pushed
-- messages, flushes, keep-alives, arrivals whose answer is lost and arrivals whose answer arrives,
-- the delivered messages are the pushed ones, once each and in order, except for a rest at the end
-- that is no longer than the sender's queue.
pub delivered_in_order :
    (n : ℕ) (p q : Session)
    → IsSeq n
    → Fresh n p
    → Reach p q
    → (rest : List Bytes) × (q.pushed ≡ q.delivered ++ rest)
      × (length rest ≤ length q.sender.encode_queue)
delivered_in_order n p q hn h rs = InOrder-rest q (Reach-InOrder rs (Fresh-InOrder n p hn h))

-- `k` exchanges that the link does not disturb.
unfoldable pub exchanges : ℕ → Session → Session
exchanges zero p = p
exchanges (suc k) p = exchanges k (exchange p)

exchange-Arrives :
    (p : Session) (k f : ℕ) (i : Item) (is : List Item)
    → length p.sender.encode_queue ≡ suc k
    → Arrives p f i is
    → InOrder (exchange p)
      × (length (exchange p).sender.encode_queue ≡ k)
      × ((exchange p).pushed ≡ p.pushed)
unfolding wires
exchange-Arrives p k f i is e a = (exchange-InOrder p f i is a, len, unfold exchange arrive in refl)
  where
    before : length p.sender.encode_queue ≡ length (wires f (i ∷ is))
    before = ap length (a.sends.0)

    behind : length (exchange p).sender.encode_queue ≡ length (wires (next_seq f) is)
    behind = ap length ((exchanged-Sends p f i is a).0)

    len : length (exchange p).sender.encode_queue ≡ k
    len = omega (arith, e, before, behind)

exchange-length :
    (p : Session) (k : ℕ)
    → length p.sender.encode_queue ≡ suc k
    → InOrder p
    → InOrder (exchange p)
      × (length (exchange p).sender.encode_queue ≡ k)
      × ((exchange p).pushed ≡ p.pushed)
unfolding wires
exchange-length p k e (waiting f [] hf s r d) = absurd (filled (sym e ∙ ap length (s.0)))
  where
    filled : suc k ≢ 0
    filled q = omega (arith, q)
exchange-length p k e (waiting f (i ∷ is) hf s r d) =
    exchange-Arrives p k f i is e (arrive_expected p f i is hf s r d)
exchange-length p k e (taken f i is hf s r d) =
    exchange-Arrives p k f i is e (arrive_repeated p f i is hf s r d)

length_zero : (xs : List Bytes) → length xs ≡ 0 → xs ≡ []
length_zero [] e = refl
length_zero (x ∷ xs) e = ground (arith, e)

exchanges-all :
    (p : Session) (k : ℕ)
    → length p.sender.encode_queue ≡ k
    → InOrder p
    → (exchanges k p).delivered ≡ p.pushed
unfolding exchanges
exchanges-all p zero e h =
    let (rest, split, short) = InOrder-rest p h in
    sym (
      split
      ∙ ap (λ t. p.delivered ++ t) (length_zero rest (omega (arith, short, e)))
      ∙ append-nil p.delivered)
exchanges-all p (suc k) e h =
    let (ordered, len, same) = exchange-length p k e h in
    exchanges-all (exchange p) k len ordered ∙ same

-- From any state that can be reached so, as many undisturbed exchanges as there are messages in
-- the queue deliver everything that was pushed.
pub delivered_all :
    (n : ℕ) (p q : Session)
    → IsSeq n
    → Fresh n p
    → Reach p q
    → (exchanges (length q.sender.encode_queue) q).delivered ≡ q.pushed
delivered_all n p q hn h rs =
    exchanges-all q (length q.sender.encode_queue) refl (Reach-InOrder rs (Fresh-InOrder n p hn h))
