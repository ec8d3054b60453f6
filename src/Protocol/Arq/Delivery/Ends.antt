-- ===== src/Protocol/Arq/Delivery/Ends.antt =====
-- What one operation of ArqLayer (src/protocol.cpp) does at an end that only sends, or only
-- receives.
use libstored.Prelude.{
  ℕ, ◌≡◌, refl, true, false, List, [], ◌∷◌, ◌++◌, ◌==◌, ◌+◌, if◌then◌else◌, arith, bit_and, bit_or,
}
use libstored.Protocol.{Bytes, frames}
use libstored.Protocol.Arq.{
  Arq, EncodeState, down, transmit, enqueue, encode, push_encode_queue, push_encode_queue_raw,
  take_ack, waiting_for_ack, pop_encode_queue, take_next, process, encode_calls,
  transmit_unless_done, close_unless_done, decode, next_seq, front, first_byte, queue_dummy,
  keep_alive, flush, nop_flag, ack_flag, seq_mask,
}
use libstored.Protocol.Arq.Seq.{IsSeq, next_seq_bounds, headers}
use libstored.Protocol.Arq.Link.{downs, ups, silent}

-- A sender between two messages, with its queue and its next number.
abbrev pub Sends : Arq → List Bytes → ℕ → Type 0
Sends s q n = (s.encode_queue ≡ q) × (s.encode_state ≡ EncodeState.idle) × (s.send_seq ≡ n)

-- A receiver with nothing to send, with the number that it expects.
abbrev pub Expects : Arq → ℕ → Type 0
Expects r n = (r.encode_queue ≡ []) × (r.encode_state ≡ EncodeState.idle) × (r.recv_seq ≡ n)

pub transmit-Sends : (s : Arq) {q : List Bytes} {n : ℕ} → Sends s q n → Sends (transmit s).0 q n
unfolding transmit
transmit-Sends s h = ground arith

pub encode-Sends :
    (s : Arq) (m : Bytes) {q : List Bytes} {n : ℕ}
    → Sends s q n
    → Sends (encode s m true).0 (q ++ ((n ∷ m) ∷ [])) (next_seq n)
unfolding encode
encode-Sends s m {q} {n} h = transmit-Sends (enqueue s m true).0 queued
  where
    queued : Sends (enqueue s m true).0 (q ++ ((n ∷ m) ∷ [])) (next_seq n)
    queued = unfold enqueue push_encode_queue push_encode_queue_raw in ground arith

pub flush-Sends : (s : Arq) {q : List Bytes} {n : ℕ} → Sends s q n → Sends (flush true s).0 q n
unfolding flush
flush-Sends s h = transmit-Sends s h

pub keep_alive-Sends_empty :
    (s : Arq) {n : ℕ}
    → Sends s [] n
    → Sends (keep_alive s).0 ((bit_or n nop_flag ∷ []) ∷ []) (next_seq n)
unfolding keep_alive
keep_alive-Sends_empty s {n} h = transmit-Sends (queue_dummy s) queued
  where
    queued : Sends (queue_dummy s) ((bit_or n nop_flag ∷ []) ∷ []) (next_seq n)
    queued = unfold queue_dummy push_encode_queue_raw in ground arith

pub keep_alive-Sends_some :
    (s : Arq) {m : Bytes} {q : List Bytes} {n : ℕ}
    → Sends s (m ∷ q) n
    → Sends (keep_alive s).0 (m ∷ q) n
unfolding keep_alive
keep_alive-Sends_some s {m} {q} {n} h = transmit-Sends (queue_dummy s) queued
  where
    queued : Sends (queue_dummy s) (m ∷ q) n
    queued = unfold queue_dummy in ground arith

ack_branch :
    (s : Arq) (h : ℕ)
    → (bit_and h ack_flag == 0) ≡ false
    → (decode silent s (h ∷ [])).0 ≡ (take_ack s h).0
unfolding decode
ack_branch s h e = rw e

popped-Sends :
    (s : Arq) {m : Bytes} {q : List Bytes} {n : ℕ}
    → Sends s (m ∷ q) n
    → Sends (record (pop_encode_queue s).0 { retransmits = 0 }) q n
unfolding pop_encode_queue
popped-Sends s h = ground arith

waiting :
    (s : Arq) {m : Bytes} {q : List Bytes} {n : ℕ} → Sends s (m ∷ q) n → waiting_for_ack s ≡ true
unfolding waiting_for_ack
waiting s h = ground arith

-- The acknowledgement of the message in front removes it.
pub decode_ack :
    (s : Arq) (f header : ℕ) (b : Bytes) {q : List Bytes} {n : ℕ}
    → IsSeq f
    → bit_and header seq_mask ≡ f
    → Sends s ((header ∷ b) ∷ q) n
    → Sends (decode silent s ((f + 128) ∷ [])).0 q n
decode_ack s f header b {q} {n} hf hh h = rw (ack_branch s (f + 128) (headers f hf).ack_ack) acked
  where
    matches :
        (bit_and (f + 128) seq_mask == bit_and (first_byte (front s.encode_queue)) seq_mask) ≡ true
    matches = ground (arith, headers f hf)

    acked : Sends (take_ack s (f + 128)).0 q n
    acked =
        unfold take_ack in
        rw (waiting s h, matches)
          (transmit-Sends (record (pop_encode_queue s).0 { retransmits = 0 }) (popped-Sends s h))

-- The payload for the layer above.
abbrev pub payload_of : ℕ → Bytes → List Bytes
payload_of header b = if bit_and header nop_flag == 0 then b ∷ [] else []

-- What the receiver does with a frame: its state, its messages and its answer.
abbrev pub Answers : Arq → Bytes → ℕ → List Bytes → ℕ → Type 0
Answers r frame expected messages seq =
    let (r', effects) = decode silent r frame in
    Expects r' expected
    × (ups effects ≡ messages)
    × (frames [] (downs effects) ≡ ((seq + 128) ∷ []) ∷ [])

take_next-Answers :
    (r : Arq) (header : ℕ) (b : Bytes) (f : ℕ)
    → IsSeq f
    → Expects r f
    → let (r', effects) = take_next silent r header b in
      Expects r' (next_seq f)
      × (ups effects ≡ payload_of header b)
      × (frames [] (downs effects) ≡ ((f + 128) ∷ []) ∷ [])
unfolding take_next process encode_calls transmit_unless_done close_unless_done downs ups frames
    silent transmit
take_next-Answers r header b f hf h = ground (arith, headers f hf)

expected_branch :
    (r : Arq) (header : ℕ) (b : Bytes)
    → (bit_and header ack_flag == 0) ≡ true
    → (bit_and header seq_mask == r.recv_seq) ≡ true
    → decode silent r (header ∷ b) ≡ take_next silent r header b
unfolding decode
expected_branch r header b e1 e2 = rw (e1, e2)

repeated_branch :
    (r : Arq) (header : ℕ) (b : Bytes)
    → (bit_and header ack_flag == 0) ≡ true
    → (bit_and header seq_mask == r.recv_seq) ≡ false
    → (next_seq (bit_and header seq_mask) == r.recv_seq) ≡ true
    → decode silent r (header ∷ b)
      ≡ (r, down (bit_or (bit_and header seq_mask) ack_flag ∷ []) true ∷ [])
unfolding decode
repeated_branch r header b e1 e2 e3 = rw (e1, e2, e3)

-- The message that is expected is taken, and acknowledged.
pub decode_expected :
    (r : Arq) (header : ℕ) (b : Bytes) (f : ℕ)
    → IsSeq f
    → bit_and header ack_flag ≡ 0
    → bit_and header seq_mask ≡ f
    → Expects r f
    → Answers r (header ∷ b) (next_seq f) (payload_of header b) f
decode_expected r header b f hf ha hs h =
    rw (expected_branch r header b ack expected) (take_next-Answers r header b f hf h)
  where
    ack : (bit_and header ack_flag == 0) ≡ true
    ack = ground arith

    expected : (bit_and header seq_mask == r.recv_seq) ≡ true
    expected = ground arith

-- The one before it is acknowledged again, and not taken again.
pub decode_repeated :
    (r : Arq) (header : ℕ) (b : Bytes) (f : ℕ)
    → IsSeq f
    → bit_and header ack_flag ≡ 0
    → bit_and header seq_mask ≡ f
    → Expects r (next_seq f)
    → Answers r (header ∷ b) (next_seq f) [] f
decode_repeated r header b f hf ha hs h =
    rw (repeated_branch r header b ack other before) (answered, one, two)
  where
    ack : (bit_and header ack_flag == 0) ≡ true
    ack = ground arith

    other : (bit_and header seq_mask == r.recv_seq) ≡ false
    other = ground (arith, next_seq_bounds f hf)

    before : (next_seq (bit_and header seq_mask) == r.recv_seq) ≡ true
    before = ground arith

    answered : Expects r (next_seq f)
    answered = h

    one : ups (down (bit_or (bit_and header seq_mask) ack_flag ∷ []) true ∷ []) ≡ []
    one = unfold ups in refl

    two :
        frames [] (downs (down (bit_or (bit_and header seq_mask) ack_flag ∷ []) true ∷ []))
        ≡ ((f + 128) ∷ []) ∷ []
    two = unfold downs frames in ground (arith, headers f hf)
