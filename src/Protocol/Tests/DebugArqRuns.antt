-- ===== src/Protocol/Tests/DebugArqRuns.antt =====
-- Runs of DebugArqLayer (src/protocol.cpp).
use libstored.Prelude.{refl, true, false, [], ◌∷◌, ◌++◌, arith}
use libstored.Protocol.DebugArq.{DebugArq, DecodeState, EncodeState, decode, reply}
use libstored.Protocol.DebugArq.Seq.{next_seq, encode_seq}
use libstored.Protocol.DebugArq.Retransmit.{Answered, Resends, decode_retransmitted}

-- The layer has answered command 1.
abbrev answered_1 : DebugArq
answered_1 = record {
  decode_state = DecodeState.decoded;
  decode_seq = 2;
  decode_seq_start = 1;
  encode_state = EncodeState.idle;
  encode_seq = 2;
  encode_seq_reset = false;
  max_encode_buffer = 0;
  encode_buffer = (1 ∷ 0x21 ∷ []) ∷ [];
  encode_buffer_size = 2;
}

answered_1-Answered : Answered answered_1 1
unfolding next_seq
answered_1-Answered = record { decoded = refl; buffered = refl; start = refl; expected = refl }

retransmit_example :
    Resends answered_1 (decode (λ m. reply m true ∷ []) answered_1 (encode_seq 1 ++ (0x3f ∷ [])))
retransmit_example =
    decode_retransmitted (λ m. reply m true ∷ []) answered_1 1 (0x3f ∷ []) (omega arith)
      answered_1-Answered
