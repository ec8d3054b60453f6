-- ===== src/Protocol/Tests/Layers.antt =====
-- Runs of the layers that carry messages (src/protocol.cpp).
use libstored.Prelude.{
  ℕ, zero, suc, ◌≡◌, refl, true, false, List, [], ◌∷◌, ◌++◌, IsByte, length, ◌+◌, ◌/◌, ◌%◌, arith,
  bit_xor, if◌then◌else◌, ◌==◌, ◌≢◌, inl,
}
use libstored.Protocol.{Bytes, Chunk, frames}
use libstored.Protocol.Layer.{encode_all, deliver}
use libstored.Protocol.Layer.Stacked.{AllBytes}
use libstored.Protocol.Parts.{written}
use libstored.Protocol.AsciiEscape.{escape_layer}
use libstored.Protocol.AsciiEscape.RoundTrip.{escape_deliver-encode_all}
use libstored.Protocol.Terminal.{terminal_layer, initial, non_debug_encode, message}
use libstored.Protocol.Terminal
use libstored.Protocol.Terminal.Machine.{terminal_decode-append}
use libstored.Protocol.Terminal.NonDebug.{non_debug_encode_framed}
use libstored.Protocol.Segmentation.{segmentation_layer}
use libstored.Protocol.Segmentation.Carry.{segmentation_deliver-encode_all}
use libstored.Protocol.Crc8.{crc8_layer}
use libstored.Protocol.Crc8
use libstored.Protocol.Crc8.Table.{crc8_table}
use libstored.Protocol.Crc16.Table.{crc16_table}
use libstored.Protocol.Crc8.Polynomial.{remainder, crc8_update-remainder}
use libstored.Protocol.Crc8.Detect.{blind, crc8_decode_byte_error}
use libstored.Protocol.Crc16.{crc16_layer}
use libstored.Protocol.Crc16
use libstored.Protocol.Crc16.Detect.{crc16_decode_byte_error}
use libstored.Protocol.Crc16.Carry.{crc16_encode_overruns}
use libstored.Protocol.Buffer.{buffer_layer}
use libstored.Protocol.Buffer.Carry.{buffer_deliver-encode_all}
use libstored.Protocol.Stacks.{terminal_stack, terminal_stack-deliver-encode_all}

-- Two messages: the first in two parts, with characters that have to be escaped.
abbrev two_messages : List Chunk
two_messages = (0x41 ∷ 0x1b ∷ [], false) ∷ (0x0d ∷ 0x7f ∷ [], true) ∷ (0 ∷ 0x42 ∷ [], true) ∷ []

two_messages-IsByte : AllBytes IsByte two_messages
two_messages-IsByte = ground arith

-- Two messages without escape characters.
terminal_stack_example :
    (deliver
      (terminal_stack 4 0 true)
      ([], (tt, (tt, initial)))
      []
      (encode_all (terminal_stack 4 0 true) (0, (Crc16.init, (tt, false))) two_messages).1).2
    ≡ frames [] two_messages
terminal_stack_example =
    terminal_stack-deliver-encode_all 4 0 (omega arith) (omega arith) true two_messages
      two_messages-IsByte

abbrev two_bytes : Bytes
two_bytes = 0x41 ∷ 0x42 ∷ []

escape_example :
    (deliver (escape_layer false) tt [] (encode_all (escape_layer false) tt two_messages).1).2
    ≡ frames [] two_messages
escape_example = escape_deliver-encode_all false two_messages two_messages-IsByte

abbrev two_parts : List Chunk
two_parts = (0x42 ∷ 0x43 ∷ [], false) ∷ (0x44 ∷ [], true) ∷ []

-- The start of a frame is cut between the two characters of its escape sequence.
terminal_cut_example :
    terminal_layer.decode initial ((0x41 ∷ 0x1b ∷ []) ++ (0x5f ∷ 0x42 ∷ 0x1b ∷ 0x5c ∷ [])) ≡ (
      let (d1, up1) = terminal_layer.decode initial (0x41 ∷ 0x1b ∷ []) in
      let (d2, up2) = terminal_layer.decode d1 (0x5f ∷ 0x42 ∷ 0x1b ∷ 0x5c ∷ []) in (d2, up1 ++ up2))
terminal_cut_example =
    terminal_decode-append initial (0x41 ∷ 0x1b ∷ []) (0x5f ∷ 0x42 ∷ 0x1b ∷ 0x5c ∷ [])

-- A debug message in two parts, and then other data.
non_debug_example :
    let (s, sent) = encode_all terminal_layer false two_parts in
    let more = (non_debug_encode s (0x41 ∷ [])).1 in
    ((deliver terminal_layer initial [] (sent ++ more)).2
      ≡ frames [] two_parts ++ ((0x41 ∷ []) ∷ []))
    × (Terminal.decode initial (written more) ≡ (initial, message (0x41 ∷ []) ∷ []))
unfolding encode_all Terminal.encode
non_debug_example = non_debug_encode_framed two_parts (0x41 ∷ []) (ground arith) (ground arith) refl

segmentation_example :
    (deliver
      (segmentation_layer 2 0)
      []
      []
      (encode_all (segmentation_layer 2 0) 0 two_messages).1).2
    ≡ frames [] two_messages
segmentation_example =
    segmentation_deliver-encode_all 2 0 (omega arith) (omega arith) two_messages two_messages-IsByte

crc8_remainder_example :
    Crc8.update Crc8.init (0x31 ∷ 0x32 ∷ []) ≡ remainder Crc8.init (0x31 ∷ 0x32 ∷ [])
crc8_remainder_example = crc8_update-remainder Crc8.init (0x31 ∷ 0x32 ∷ [])

-- The difference that the checksum does not see.
crc8_error_example :
    (Crc8.decode ((0x41 ∷ 0xd3 ∷ 0x42 ∷ []) ++ (Crc8.update Crc8.init (0x41 ∷ 0 ∷ 0x42 ∷ []) ∷ []))
      ≡ (if bit_xor 0 0xd3 == blind then (0x41 ∷ 0xd3 ∷ 0x42 ∷ []) ∷ [] else []))
    × (Crc8.decode ((0x41 ∷ []) ++ (1 ∷ [])) ≡ [])
crc8_error_example =
    crc8_decode_byte_error (0x41 ∷ []) (0x42 ∷ []) (0x41 ∷ []) 0 0xd3 1 (ground arith)
      (ground arith) (omega arith) (omega arith) (omega arith) wrong
  where
    wrong : 1 ≢ Crc8.update Crc8.init (0x41 ∷ [])
    wrong = unfold Crc8.update Crc8.compute crc8_table in omega arith

crc16_error_example :
    let crc = Crc16.update Crc16.init (0x41 ∷ 0 ∷ 0x42 ∷ []) in
    (Crc16.decode ((0x41 ∷ 0xd3 ∷ 0x42 ∷ []) ++ (crc / 256 ∷ crc % 256 ∷ [])) ≡ [])
    × (Crc16.decode ((0x41 ∷ []) ++ (0 ∷ 0 ∷ [])) ≡ [])
crc16_error_example =
    crc16_decode_byte_error (0x41 ∷ []) (0x42 ∷ []) (0x41 ∷ []) 0 0xd3 0 0 (ground arith)
      (ground arith) (omega arith) (omega arith) (omega arith) (omega arith) (omega arith)
      (inl wrong)
  where
    wrong : 0 ≢ Crc16.update Crc16.init (0x41 ∷ []) / 256
    wrong = unfold Crc16.update Crc16.compute crc16_table in omega arith

abbrev zeros : ℕ → Bytes
zeros zero = []
zeros (suc n) = 0 ∷ zeros n

crc16_overrun_example : length (written (Crc16.encode Crc16.init (zeros 256) true).1) ≡ 257 + 1
crc16_overrun_example = crc16_encode_overruns Crc16.init (zeros 256) full
  where
    full : length (zeros 256) ≡ Crc16.mtu 257
    full = unfold Crc16.mtu in refl

buffer_example :
    (deliver (buffer_layer 2) tt [] (encode_all (buffer_layer 2) [] two_messages).1).2
    ≡ frames [] two_messages
buffer_example = buffer_deliver-encode_all IsByte 2 (omega arith) two_messages two_messages-IsByte
