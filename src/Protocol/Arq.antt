-- ===== src/Protocol/Arq.antt =====
-- ArqLayer (src/protocol.cpp): acknowledged delivery, one message at a time.
-- An operation returns the new state and what it does, in order: the calls of the layers below and
-- above, the events, and the assertions that fail. Memory is not modelled beyond the number of
-- spare buffers.
pub mod Seq
pub mod Invariant
pub mod Link
pub mod Delivery
pub mod QueueSize
use libstored.Prelude.{
  ℕ, Bool, true, false, not, ◌&&◌, ◌||◌, List, [], ◌∷◌, ◌++◌, ◌==◌, if◌then◌else◌,
}
use libstored.Prelude.{
  ◌+◌, ◌-◌, ◌*◌, ◌/◌, ◌%◌, ◌^◌, bit_and, bit_or, ltb, leb, length, is_empty, sub_size,
}
use libstored.Protocol.{Bytes, Chunk}

abbrev pub nop_flag : ℕ
nop_flag = 0x40

abbrev pub ack_flag : ℕ
ack_flag = 0x80

abbrev pub seq_mask : ℕ
seq_mask = 0x3f

abbrev pub retransmit_callback_threshold : ℕ
retransmit_callback_threshold = 10

pub data EncodeState : Type 0 where
  idle encoding : EncodeState

pub data ArqEvent : Type 0 where
  none reconnect encode_buffer_overflow retransmit : ArqEvent

pub record Arq : Type 0 where
  pub max_encode_buffer : ℕ
  pub has_callback : Bool
  pub encode_queue : List Bytes
  pub spare : ℕ
  pub encode_queue_size : ℕ
  pub encode_state : EncodeState
  pub did_transmit : Bool
  pub retransmits : ℕ
  pub send_seq : ℕ
  pub recv_seq : ℕ

-- `down b last` is `base::encode`, `up b` is `base::decode`. Behind `aborted` the program has
-- ended.
pub data Effect : Type 0 where
  down : Bytes → Bool → Effect
  up : Bytes → Effect
  event : ArqEvent → Effect
  assert_failed : Effect
  aborted : Effect
  reset_below : Effect

abbrev pub is_idle : EncodeState → Bool
is_idle EncodeState.idle = true
is_idle EncodeState.encoding = false

unfoldable pub check : Bool → List Effect
check true = []
check false = assert_failed ∷ []

-- `event`: the callback gets the event. Without one, an overflow of the buffer ends the program.
unfoldable pub raise : Bool → ArqEvent → List Effect
raise true e = event e ∷ []
raise false ArqEvent.encode_buffer_overflow = aborted ∷ []
raise false ArqEvent.none = []
raise false ArqEvent.reconnect = []
raise false ArqEvent.retransmit = []

unfoldable pub next_seq : ℕ → ℕ
next_seq seq = let next = bit_and (seq + 1) seq_mask in if next == 0 then 1 else next

-- `*m_encodeQueue.front()`; the source reads it of a queue that is not empty.
abbrev pub front : List Bytes → Bytes
front [] = []
front (m ∷ q) = m

abbrev pub first_byte : Bytes → ℕ
first_byte [] = 0
first_byte (b ∷ bs) = b

-- The source asserts here that the message in front is not empty.
unfoldable pub waiting_for_ack : Arq → Bool
waiting_for_ack s =
    not (is_empty s.encode_queue)
    && not (length s.encode_queue == 1 && not (is_idle s.encode_state))

unfoldable pub pop_encode_queue : Arq → Arq × List Effect
pop_encode_queue s = elim (s.encode_queue) [
  | [] ↦ (s, assert_failed ∷ [])
  | m ∷ q ↦ (
    record s {
      encode_queue = q;
      spare = s.spare + 1;
      encode_queue_size = sub_size s.encode_queue_size (length m);
    },
    [],
  )
]

-- `pushEncodeQueueRaw`, with what its callers put into the new buffer.
unfoldable pub push_encode_queue_raw : Bytes → Arq → Arq
push_encode_queue_raw m s = record s {
  encode_queue = s.encode_queue ++ (m ∷ []);
  spare = s.spare - 1;
}

unfoldable pub push_encode_queue : Bytes → Arq → Arq
unfolding push_encode_queue_raw
push_encode_queue b s =
    let s1 = push_encode_queue_raw (s.send_seq ∷ b) s in
    record s1 {
      send_seq = next_seq s.send_seq;
      encode_queue_size = (s.encode_queue_size + length b) % 2 ^ 64;
    }

-- `transmit`: whether something was sent is the last component.
unfoldable pub transmit : Arq → Arq × List Effect × Bool
transmit s =
    if is_empty s.encode_queue
    then (s, [], false)
    else if length s.encode_queue == 1 && not (is_idle s.encode_state)
    then (s, [], false)
    else (let n = if ltb s.retransmits 255 then s.retransmits + 1 else s.retransmits in
        let s1 = record s { did_transmit = true; retransmits = n } in
        (
          s1,
          (if leb retransmit_callback_threshold n
                then raise s.has_callback ArqEvent.retransmit
                else [])
              ++ (down (front s.encode_queue) true ∷ check (waiting_for_ack s1)),
          true,
        ))

-- `append` to the last buffer of the queue.
unfoldable pub append_back : List Bytes → Bytes → List Bytes
append_back [] b = []
append_back (m ∷ []) b = (m ++ b) ∷ []
append_back (m ∷ k ∷ q) b = m ∷ append_back (k ∷ q) b

-- The check of `encode` against the limit of the buffer.
unfoldable pub check_overflow : Arq → Bytes → List Effect
check_overflow s b =
    if ltb 0 s.max_encode_buffer
      && ltb s.max_encode_buffer ((s.encode_queue_size + length b) % 2 ^ 64)
    then raise s.has_callback ArqEvent.encode_buffer_overflow
    else []

-- The switch of `encode`: a new message is queued, or the last one grows.
unfoldable pub enqueue : Arq → Bytes → Bool → Arq × List Effect
unfolding append_back push_encode_queue
enqueue s b last = elim (s.encode_state) [
  | EncodeState.idle ↦
      let pushed = push_encode_queue b s in
      (if last then pushed else record pushed { encode_state = EncodeState.encoding }, [])
  | EncodeState.encoding ↦ (
    record s {
      encode_queue = append_back s.encode_queue b;
      encode_queue_size = (s.encode_queue_size + length b) % 2 ^ 64;
      encode_state = if last then EncodeState.idle else EncodeState.encoding;
    },
    check (not (is_empty s.encode_queue)),
  )
]

unfoldable pub encode : Arq → Bytes → Bool → Arq × List Effect
encode s b last =
    let (s1, checked) = enqueue s b last in
    let (s2, sent, did) = transmit s1 in (s2, check_overflow s b ++ (checked ++ sent))

-- The calls of `encode` that the layer above makes while it decodes a message.
unfoldable pub encode_calls : Arq → List Chunk → Arq × List Effect
encode_calls s [] = (s, [])
encode_calls s ((b, last) ∷ cs) =
    let (s1, out) = encode s b last in let (s2, more) = encode_calls s1 cs in (s2, out ++ more)

-- The branch of `decode` for an acknowledgement.
unfoldable pub take_ack : Arq → ℕ → Arq × List Effect
take_ack s header =
    if waiting_for_ack s
      && (bit_and header seq_mask == bit_and (first_byte (front s.encode_queue)) seq_mask)
    then (let (s1, checked) = pop_encode_queue s in
        let (s2, sent, did) = transmit (record s1 { retransmits = 0 }) in (s2, checked ++ sent))
    else (s, [])

-- What `decode` does for the next message behind its acknowledgement: the layer above takes the
-- payload and answers with the calls that `respond` gives; then a message is sent, if that did not
-- happen yet; and if there is none, the frame with the acknowledgement is closed.
unfoldable pub process : (Bytes → List Chunk) → Arq → ℕ → Bytes → Arq × List Effect
process respond s header payload =
    let (answered, out) = encode_calls s (respond payload) in
    if bit_and header nop_flag == 0 then (answered, up payload ∷ out) else (s, [])

unfoldable pub transmit_unless_done : Arq → Arq × List Effect
transmit_unless_done s =
    let (s1, sent, did) = transmit s in if s.did_transmit then (s, []) else (s1, sent)

unfoldable pub close_unless_done : Arq → Arq × List Effect
close_unless_done s =
    if s.did_transmit then (s, []) else (record s { did_transmit = true }, down [] true ∷ [])

-- The branch of `decode` for the next message.
unfoldable pub take_next : (Bytes → List Chunk) → Arq → ℕ → Bytes → Arq × List Effect
take_next respond s header payload =
    let ack = down (bit_or s.recv_seq ack_flag ∷ []) false in
    let s1 = record s { recv_seq = next_seq s.recv_seq; did_transmit = false } in
    let (s2, responded) = process respond s1 header payload in
    let (s3, sent) = transmit_unless_done s2 in
    let (s4, closed) = close_unless_done s3 in (s4, ack ∷ responded ++ (sent ++ closed))

-- `decode`: acknowledgements in front are taken one by one, up to the first message.
unfoldable pub decode : (Bytes → List Chunk) → Arq → Bytes → Arq × List Effect
decode respond s [] = (s, [])
decode respond s (header ∷ rest) =
    let (acked, out) = take_ack s header in
    let (s2, more) = decode respond acked rest in
    let after_ack : Arq × List Effect = (s2, out ++ more) in
    if not (bit_and header ack_flag == 0)
    then after_ack
    else if bit_and header seq_mask == s.recv_seq
    then take_next respond s header rest
    else if next_seq (bit_and header seq_mask) == s.recv_seq
    then (s, down (bit_or (bit_and header seq_mask) ack_flag ∷ []) true ∷ [])
    else if bit_and header seq_mask == 0
    then (s, raise s.has_callback ArqEvent.reconnect)
    else (s, [])

-- `keepAlive`: an empty queue gets a dummy message first.
unfoldable pub queue_dummy : Arq → Arq
unfolding push_encode_queue_raw
queue_dummy s =
    let pushed = push_encode_queue_raw (bit_or s.send_seq nop_flag ∷ []) s in
    if is_empty s.encode_queue
    then record pushed {
      encode_queue_size = (s.encode_queue_size + 1) % 2 ^ 64;
      send_seq = next_seq s.send_seq;
    }
    else s

unfoldable pub keep_alive : Arq → Arq × List Effect
keep_alive s = let (s1, sent, did) = transmit (queue_dummy s) in (s1, sent)

-- `flush`, where `below` is the result of `base::flush`.
unfoldable pub flush : Bool → Arq → Arq × List Effect × Bool
flush below s = let (s1, sent, did) = transmit s in (s1, sent, below && not did)

-- The loop of `reset` that empties the queue; the list is the queue.
unfoldable pub pop_all : List Bytes → Arq → Arq × List Effect
pop_all [] s = (s, [])
pop_all (m ∷ q) s =
    let (s1, out) = pop_encode_queue s in let (s2, more) = pop_all q s1 in (s2, out ++ more)

unfoldable pub reset : Arq → Arq × List Effect
unfolding pop_all
reset s =
    let (s1, popped) = pop_all s.encode_queue s in
    let s2 = record s1 {
      encode_state = EncodeState.idle;
      did_transmit = false;
      retransmits = 0;
      send_seq = 0;
      recv_seq = 0;
    } in
    let (s3, sent) = keep_alive s2 in
    (s3, (popped ++ check (s1.encode_queue_size == 0)) ++ (reset_below ∷ sent))

-- The constructor.
unfoldable pub initial : ℕ → Bool → Arq × List Effect
initial max callback = keep_alive (record {
  max_encode_buffer = max;
  has_callback = callback;
  encode_queue = [];
  spare = 0;
  encode_queue_size = 0;
  encode_state = EncodeState.idle;
  did_transmit = false;
  retransmits = 0;
  send_seq = 0;
  recv_seq = 0;
})

unfoldable pub reset_did_transmit : Arq → Arq
reset_did_transmit s = record s { did_transmit = false }

-- `shrink_to_fit` frees the spare buffers.
unfoldable pub shrink_to_fit : Arq → Arq
shrink_to_fit s = record s { spare = 0 }

-- The method `retransmits`: the first transmission does not count.
unfoldable pub retransmit_count : Arq → ℕ
retransmit_count s = if s.retransmits == 0 then 0 else s.retransmits - 1

unfoldable pub mtu : ℕ → ℕ
mtu lower = if lower == 0 then 0 else if leb lower 2 then 1 else lower - 2
