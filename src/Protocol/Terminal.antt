-- ===== src/Protocol/Terminal.antt =====
-- TerminalLayer (src/protocol.cpp): debug messages between escape sequences, in a stream of other
-- terminal output.
pub mod Machine
pub mod Carry
pub mod NonDebug
use libstored.Prelude.{ℕ, Bool, true, false, List, [], ◌∷◌, ◌++◌, ◌==◌, if◌then◌else◌}
use libstored.Prelude.{◌+◌, ◌-◌, sub_size, ltb, leb, take, drop, length}
use libstored.Protocol.{Bytes, Chunk}
use libstored.Protocol.Layer.{Layer}

abbrev pub esc : ℕ
esc = 0x1b

abbrev pub esc_start : ℕ
esc_start = b'_'

abbrev pub esc_end : ℕ
esc_end = 0x5c

pub data State : Type 0 where
  normal normal_esc debug debug_esc : State

-- `m_decodeState` and `m_buffer`.
pub record Decoder : Type 0 where
  pub state : State
  pub buffer : Bytes

-- What `decode` does besides: `base::decode` of a debug message, or a call of the receptor of
-- other data.
pub data Event : Type 0 where
  message : Bytes → Event
  non_debug : Bytes → Event

abbrev pub initial : Decoder
initial = record { state = State.normal; buffer = [] }

-- One round of the loop of `decode`, at the character `c` with index `i` of `data`. The last
-- component is `nonDebugOffset`.
unfoldable pub round : Bytes → ℕ → ℕ → Decoder → ℕ → Decoder × List Event × ℕ
round text i c d offset = elim (d.state) [
  | State.normal ↦ (if c == esc then record d { state = State.normal_esc } else d, [], offset)
  | State.normal_esc ↦
      if c == esc_start
      then (
        record d { state = State.debug },
        (if ltb 1 (sub_size i offset)
            then non_debug (take (sub_size (sub_size i offset) 1) (drop offset text)) ∷ []
            else []),
        length text,
      )
      else (record d { state = State.normal }, [], offset)
  | State.debug ↦
      if c == esc
      then (record d { state = State.debug_esc }, [], offset)
      else (record d { buffer = d.buffer ++ (c ∷ []) }, [], offset)
  | State.debug_esc ↦
      if c == esc_end
      then (record { state = State.normal; buffer = [] }, message d.buffer ∷ [], i + 1)
      else (
        record { state = State.debug; buffer = (d.buffer ++ (esc ∷ [])) ++ (c ∷ []) },
        [],
        offset,
      )
]

-- The loop, from index `i` on: the third argument is `text[i..len)`.
unfoldable pub rounds : Bytes → ℕ → Bytes → Decoder → ℕ → Decoder × List Event × ℕ
rounds text i [] d offset = (d, [], offset)
rounds text i (c ∷ rest) d offset =
    let (d1, out, offset1) = round text i c d offset in
    let (d2, more, offset2) = rounds text (i + 1) rest d1 offset1 in (d2, out ++ more, offset2)

-- `m_decodeState < StateDebug`.
unfoldable pub outside : State → Bool
outside State.normal = true
outside State.normal_esc = true
outside State.debug = false
outside State.debug_esc = false

unfoldable pub decode : Decoder → Bytes → Decoder × List Event
unfolding outside
decode d text =
    let len = length text in
    let (d', out, offset) = rounds text 0 text d (if outside d.state then 0 else len) in
    (d', (if ltb offset len then out ++ (non_debug (drop offset text) ∷ []) else out))

-- The debug messages among the events, for the layer above.
unfoldable pub messages : List Event → List Bytes
messages [] = []
messages (message m ∷ es) = m ∷ messages es
messages (non_debug m ∷ es) = messages es

-- `encodeStart` and `encodeEnd`: the new `m_encodeState`, and the calls of the layer below.
unfoldable pub encode_start : Bool → Bool × List Chunk
encode_start true = (true, [])
encode_start false = (true, (esc ∷ esc_start ∷ [], false) ∷ [])

unfoldable pub encode_end : Bool → Bool × List Chunk
encode_end true = (false, (esc ∷ esc_end ∷ [], true) ∷ [])
encode_end false = (false, [])

unfoldable pub encode : Bool → Bytes → Bool → Bool × List Chunk
unfolding encode_start encode_end
encode s buffer last =
    let (s1, start) = encode_start s in
    let (s2, end) = if last then encode_end s1 else (s1, []) in
    (s2, start ++ ((buffer, false) ∷ end))

-- `nonDebugEncode`, which is not to be called while a frame is open.
unfoldable pub non_debug_encode : Bool → Bytes → Bool × List Chunk
unfolding encode
non_debug_encode s buffer = encode s buffer true

-- `reset`, but for the layer below.
unfoldable pub reset : Bool → Decoder → Bool × Decoder
reset s d = (false, initial)

unfoldable pub mtu : ℕ → ℕ
mtu lower = if lower == 0 then 0 else if leb lower 4 then 1 else lower - 4

abbrev pub terminal_layer : Layer
terminal_layer = record {
  Sender = Bool;
  Receiver = Decoder;
  encode = encode;
  decode = λ d f. let (d', events) = decode d f in (d', messages events);
}
