-- ===== src/Protocol/Arq/QueueSize.antt =====
-- m_encodeQueueSize of ArqLayer (src/protocol.cpp): what a message adds and what it takes away.
use libstored.Prelude.{
  ℕ, ◌≡◌, refl, sym, ap, ◌∙◌, true, [], ◌∷◌, ◌++◌, ◌==◌, ◌+◌, ◌<◌, ◌%◌, ◌^◌, length, sub_size,
  arith, bit_and,
}
use libstored.Protocol.{Bytes}
use libstored.Protocol.Arq.{
  Arq, next_seq, EncodeState, encode, enqueue, push_encode_queue, push_encode_queue_raw,
  pop_encode_queue, transmit, take_ack, first_byte, front, waiting_for_ack, seq_mask,
}
use libstored.Protocol.Arq.Seq.{IsSeq, headers}
use libstored.Protocol.Arq.Delivery.Ends.{Sends, encode-Sends}

transmit-size : (s : Arq) → (transmit s).0.encode_queue_size ≡ s.encode_queue_size
unfolding transmit
transmit-size s = ground arith

popped-size :
    (s : Arq) (k : Bytes)
    → s.encode_queue ≡ k ∷ []
    → (pop_encode_queue s).0.encode_queue_size ≡ sub_size s.encode_queue_size (length k)
unfolding pop_encode_queue
popped-size s k h = rw h refl

take_ack-size :
    (s : Arq) (header f : ℕ) (m : Bytes)
    → Sends s ((header ∷ m) ∷ []) f
    → (bit_and (header + 128) seq_mask == bit_and header seq_mask) ≡ true
    → (take_ack s (header + 128)).0.encode_queue_size ≡ sub_size s.encode_queue_size (length m + 1)
unfolding take_ack
take_ack-size s header f m h e =
    rw (waiting, matches)
      (transmit-size (record (pop_encode_queue s).0 { retransmits = 0 })
        ∙ popped-size s (header ∷ m) (h.0)
        ∙ ap (λ n. sub_size s.encode_queue_size n) (omega arith))
  where
    waiting : waiting_for_ack s ≡ true
    waiting = unfold waiting_for_ack in ground arith

    matches :
        (bit_and (header + 128) seq_mask == bit_and (first_byte (front s.encode_queue)) seq_mask)
        ≡ true
    matches = rw (h.0) e

encode-size :
    (s : Arq) (m : Bytes)
    → s.encode_state ≡ EncodeState.idle
    → (encode s m true).0.encode_queue_size ≡ (s.encode_queue_size + length m) % 2 ^ 64
unfolding encode
encode-size s m h = transmit-size (enqueue s m true).0 ∙ queued
  where
    queued : (enqueue s m true).0.encode_queue_size ≡ (s.encode_queue_size + length m) % 2 ^ 64
    queued = unfold enqueue push_encode_queue push_encode_queue_raw in ground arith

-- From an idle layer with an empty queue and a size below 2^64, a message that is encoded and then
-- acknowledged leaves the size one lower, modulo 2^64: it is counted without its header when it is
-- queued, and with it when its acknowledgement removes it.
pub acked_encode_queue_size :
    (s : Arq) (m : Bytes)
    → s.encode_queue ≡ []
    → s.encode_state ≡ EncodeState.idle
    → IsSeq s.send_seq
    → s.encode_queue_size < 2 ^ 64
    → length m < 2 ^ 64
    → (take_ack (encode s m true).0 (s.send_seq + 128)).0.encode_queue_size
      ≡ sub_size s.encode_queue_size 1
acked_encode_queue_size s m hq hi hs hc hm =
    take_ack-size t s.send_seq (next_seq s.send_seq) m sends (ground (arith, headers s.send_seq hs))
    ∙ unfold sub_size in omega (arith, encode-size s m hi)
  where
    t : Arq
    t = (encode s m true).0

    sends : Sends t ((s.send_seq ∷ m) ∷ []) (next_seq s.send_seq)
    sends = rw (sym (ap (λ q. q ++ ((s.send_seq ∷ m) ∷ [])) hq)) (encode-Sends s m (refl, hi, refl))
