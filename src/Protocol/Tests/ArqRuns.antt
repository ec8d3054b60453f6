-- ===== src/Protocol/Tests/ArqRuns.antt =====
-- Runs of ArqLayer (src/protocol.cpp).
use libstored.Prelude.{
  ◌≡◌, ◌≢◌, refl, true, false, List, [], ◌∷◌, ◌++◌, length, ◌≤◌, ◌+◌, arith, sub_size,
}
use libstored.Protocol.{Bytes}
use libstored.Protocol.Arq.{
  Arq, EncodeState, encode, decode, take_ack, enqueue, push_encode_queue, push_encode_queue_raw,
  transmit,
}
use libstored.Protocol.Arq.Link.{Session, push, answer_lost, Reach, here, next, arrive}
use libstored.Protocol.Arq.Invariant.{IsValid, IsSafe, encode-IsSafe, decode-IsSafe}
use libstored.Protocol.Arq.Delivery.Exact.{Fresh, exchanges, delivered_in_order, delivered_all}
use libstored.Protocol.Arq.QueueSize.{acked_encode_queue_size}

-- An end after the first keep-alives were exchanged.
abbrev end_1 : Arq
end_1 = record {
  max_encode_buffer = 0;
  has_callback = true;
  encode_queue = [];
  spare = 1;
  encode_queue_size = 0;
  encode_state = EncodeState.idle;
  did_transmit = false;
  retransmits = 0;
  send_seq = 1;
  recv_seq = 1;
}

abbrev start : Session
start = record { sender = end_1; receiver = end_1; pushed = []; delivered = [] }

start-Fresh : Fresh 1 start
start-Fresh = ((refl, refl, refl), (refl, refl, refl), refl, refl)

-- A message is queued, and arrives; its answer is lost.
abbrev queued : Session
queued = record start { sender = (encode end_1 (0x41 ∷ []) true).0; pushed = (0x41 ∷ []) ∷ [] }

queued-some : queued.sender.encode_queue ≢ []
unfolding encode enqueue push_encode_queue push_encode_queue_raw transmit
queued-some e = ground (arith, e)

run : Reach start (arrive queued)
run = next (next here (push start (0x41 ∷ []))) (answer_lost queued queued-some)

in_order_example :
    (rest : List Bytes) × ((arrive queued).pushed ≡ (arrive queued).delivered ++ rest)
    × (length rest ≤ length (arrive queued).sender.encode_queue)
in_order_example = delivered_in_order 1 start (arrive queued) (omega arith) start-Fresh run

all_example :
    (exchanges (length (arrive queued).sender.encode_queue) (arrive queued)).delivered
    ≡ (arrive queued).pushed
all_example = delivered_all 1 start (arrive queued) (omega arith) start-Fresh run

end_1-IsValid : IsValid end_1
end_1-IsValid = record {
  filled = tt;
  open_message = refl;
  send_seq = omega arith;
  recv_seq = omega arith;
  retransmits = omega arith;
}

-- An acknowledgement, and behind it a message that the layer above answers.
decode_example : IsSafe (decode (λ m. (m, true) ∷ []) end_1 (0x81 ∷ 0x01 ∷ 0x41 ∷ []))
decode_example = decode-IsSafe (λ m. (m, true) ∷ []) end_1 (0x81 ∷ 0x01 ∷ 0x41 ∷ []) end_1-IsValid

encode_example : IsSafe (encode end_1 (0x41 ∷ []) false)
encode_example = encode-IsSafe end_1 (0x41 ∷ []) false end_1-IsValid

-- The size of the queue goes from 0 to the highest value.
queue_size_example :
    (take_ack (encode end_1 (0x41 ∷ []) true).0 (1 + 128)).0.encode_queue_size ≡ sub_size 0 1
queue_size_example =
    acked_encode_queue_size end_1 (0x41 ∷ []) refl refl (omega arith) (omega arith) (omega arith)
