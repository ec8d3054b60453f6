-- ===== src/Protocol/DebugArq.antt =====
-- DebugArqLayer (src/protocol.cpp): requests and responses with sequence numbers, retransmitted
-- when they get lost. An operation returns the new state and what it does, in order.
pub mod Seq
pub mod Retransmit
use libstored.Prelude.{
  ℕ, Bool, true, false, not, ◌&&◌, ◌||◌, List, [], ◌∷◌, ◌++◌, ◌==◌, if◌then◌else◌, Option, none,
  some,
}
use libstored.Prelude.{◌+◌, ◌-◌, ◌%◌, ◌^◌, ltb, leb, length, is_empty, bit_or, bit_and}
use libstored.Protocol.{Bytes}
use Seq.{next_seq, encode_seq, decode_seq}

abbrev pub reset_flag : ℕ
reset_flag = 0x80

pub data DecodeState : Type 0 where
  idle decoding decoded retransmit : DecodeState

pub data EncodeState : Type 0 where
  idle encoding unbuffered_idle unbuffered_encoding : EncodeState

pub record DebugArq : Type 0 where
  pub decode_state : DecodeState
  pub decode_seq : ℕ
  pub decode_seq_start : ℕ
  pub encode_state : EncodeState
  pub encode_seq : ℕ
  pub encode_seq_reset : Bool
  pub max_encode_buffer : ℕ
  pub encode_buffer : List Bytes
  pub encode_buffer_size : ℕ

-- `down b last` is `base::encode`, `up b` is `base::decode`, and `purgeable p` is
-- `base::setPurgeableResponse`. `overrun` is a `base::decode` of memory behind the buffer.
pub data Effect : Type 0 where
  down : Bytes → Bool → Effect
  up : Bytes → Effect
  purgeable : Bool → Effect
  assert_failed : Effect
  overrun : Effect

-- What the layer above calls while it decodes.
pub data Call : Type 0 where
  reply : Bytes → Bool → Call
  set_purgeable : Bool → Call

unfoldable pub check : Bool → List Effect
check true = []
check false = assert_failed ∷ []

abbrev pub between_replies : EncodeState → Bool
between_replies EncodeState.idle = true
between_replies EncodeState.unbuffered_idle = true
between_replies EncodeState.encoding = false
between_replies EncodeState.unbuffered_encoding = false

abbrev pub is_buffered : EncodeState → Bool
is_buffered EncodeState.idle = true
is_buffered EncodeState.encoding = true
is_buffered EncodeState.unbuffered_idle = false
is_buffered EncodeState.unbuffered_encoding = false

-- `m_encodeBuffer.back()`; the source reads it of a vector that is not empty.
abbrev pub back : List Bytes → Bytes
back [] = []
back (b ∷ []) = b
back (b ∷ c ∷ bs) = back (c ∷ bs)

abbrev pub append_back : List Bytes → Bytes → List Bytes
append_back [] b = []
append_back (m ∷ []) b = (m ++ b) ∷ []
append_back (m ∷ k ∷ q) b = m ∷ append_back (k ∷ q) b

abbrev pub clear : DebugArq → DebugArq
clear s = record s { encode_buffer = []; encode_buffer_size = 0 }

-- `setPurgeableResponse`.
unfoldable pub make_purgeable : DebugArq → DebugArq × List Effect
make_purgeable s = elim (s.encode_state) [
  | EncodeState.encoding ↦ (
    clear (record s { encode_state = EncodeState.unbuffered_encoding }),
    purgeable true ∷ down (back s.encode_buffer) false ∷ [],
  )
  | EncodeState.idle ↦
      (clear (record s { encode_state = EncodeState.unbuffered_idle }), purgeable true ∷ [])
  | EncodeState.unbuffered_idle ↦ (clear s, purgeable true ∷ assert_failed ∷ [])
  | EncodeState.unbuffered_encoding ↦ (clear s, purgeable true ∷ assert_failed ∷ [])
]

unfoldable pub make_precious : DebugArq → DebugArq × List Effect
make_precious s = elim (s.encode_state) [
  | EncodeState.unbuffered_encoding ↦ (s, [])
  | EncodeState.unbuffered_idle ↦
      (record s { encode_state = EncodeState.idle }, purgeable false ∷ [])
  | EncodeState.idle ↦ (s, assert_failed ∷ [])
  | EncodeState.encoding ↦ (s, assert_failed ∷ [])
]

unfoldable pub set_purgeable_response : DebugArq → Bool → DebugArq × List Effect
unfolding make_purgeable make_precious
set_purgeable_response s true = if is_buffered s.encode_state then make_purgeable s else (s, [])
set_purgeable_response s false = if is_buffered s.encode_state then (s, []) else make_precious s

-- The first lines of `encode`: the request was complete.
unfoldable pub start_reply : DebugArq → DebugArq × List Effect
start_reply s = elim (s.decode_state) [
  | DecodeState.decoding ↦
      (record s { decode_state = DecodeState.decoded }, check (between_replies s.encode_state))
  | DecodeState.idle ↦ (s, [])
  | DecodeState.decoded ↦ (s, [])
  | DecodeState.retransmit ↦ (s, [])
]

-- A response that does not fit in the buffer becomes purgeable.
unfoldable pub limit_buffer : DebugArq → Bytes → DebugArq × List Effect
unfolding set_purgeable_response
limit_buffer s b =
    if is_buffered s.encode_state
      && (ltb 0 s.max_encode_buffer
          && ltb s.max_encode_buffer ((s.encode_buffer_size + length b) % 2 ^ 64))
    then set_purgeable_response s true
    else (s, [])

-- The sequence number in front of a reply, with the reset flag in its first byte.
abbrev pub flag_reset : Bool → Bytes → Bytes
flag_reset true (b ∷ bs) = bit_or b reset_flag ∷ bs
flag_reset true [] = []
flag_reset false bs = bs

unfoldable pub number_reply : DebugArq → DebugArq × Bytes
number_reply s =
    if between_replies s.encode_state
    then (
      record s { encode_seq = next_seq s.encode_seq; encode_seq_reset = false },
      flag_reset s.encode_seq_reset (encode_seq s.encode_seq),
    )
    else (s, [])

-- The last switch of `encode`, its two pairs of cases.
unfoldable pub send_unbuffered : DebugArq → Bytes → Bool → DebugArq × List Effect
send_unbuffered s b last = (
  record s {
    encode_state = if last then EncodeState.unbuffered_idle else EncodeState.unbuffered_encoding;
  },
  down b last ∷ [],
)

unfoldable pub send_buffered : DebugArq → Bytes → Bool → DebugArq × List Effect
send_buffered s b last =
    let buffer = append_back s.encode_buffer b in
    (
      record s {
        encode_buffer = buffer;
        encode_buffer_size = (s.encode_buffer_size + length b) % 2 ^ 64;
        encode_state = if last then EncodeState.idle else EncodeState.encoding;
      },
      check (not (is_empty s.encode_buffer)) ++ (if last then down (back buffer) true ∷ [] else []),
    )

unfoldable pub send : DebugArq → Bytes → Bytes → Bool → DebugArq × List Effect
unfolding send_unbuffered send_buffered
send s seq b last = elim (s.encode_state) [
  | EncodeState.unbuffered_idle ↦
      let (s1, out) = send_unbuffered s b last in (s1, down seq false ∷ out)
  | EncodeState.unbuffered_encoding ↦ send_unbuffered s b last
  | EncodeState.idle ↦
      send_buffered
        (record s {
          encode_buffer = s.encode_buffer ++ (seq ∷ []);
          encode_buffer_size = (s.encode_buffer_size + length seq) % 2 ^ 64;
        })
        b last
  | EncodeState.encoding ↦ send_buffered s b last
]

unfoldable pub encode : DebugArq → Bytes → Bool → DebugArq × List Effect
unfolding start_reply limit_buffer number_reply send
encode s b last =
    let (s1, out1) = start_reply s in
    let (s2, out2) = limit_buffer s1 b in
    let (s3, seq) = number_reply s2 in
    let (s4, out4) = send s3 seq b last in (s4, out1 ++ (out2 ++ out4))

-- The layer above, while it decodes.
unfoldable pub calls : DebugArq → List Call → DebugArq × List Effect
unfolding encode set_purgeable_response
calls s [] = (s, [])
calls s (reply b last ∷ cs) =
    let (s1, out) = encode s b last in let (s2, more) = calls s1 cs in (s2, out ++ more)
calls s (set_purgeable p ∷ cs) =
    let (s1, out) = set_purgeable_response s p in let (s2, more) = calls s1 cs in (s2, out ++ more)

-- The parts of `decode`: first the reset flag.
unfoldable pub take_reset : DebugArq → ℕ → ℕ → DebugArq × List Effect
unfolding set_purgeable_response
take_reset s flags seq =
    let (s1, out) =
      set_purgeable_response
        (clear (record s {
          decode_state = DecodeState.idle;
          encode_state = EncodeState.idle;
          decode_seq = next_seq seq;
          encode_seq = 1;
        }))
        false in
    if bit_and flags reset_flag == 0
    then (s, [])
    else (record s1 { encode_seq_reset = false }, out ++ (down (reset_flag ∷ []) true ∷ []))

-- A retransmit of the command that was answered last.
unfoldable pub take_retransmit : DebugArq → ℕ → DebugArq × List Effect
unfolding set_purgeable_response
take_retransmit s seq =
    let (s1, out) = set_purgeable_response s false in
    let again : DebugArq × List Effect = elim (s.encode_state) [
      | EncodeState.unbuffered_idle ↦ (
        record s1 {
          decode_seq = s.decode_seq_start;
          decode_state = DecodeState.idle;
          encode_seq_reset = true;
        },
        out,
      )
      | EncodeState.idle ↦ (record s { decode_state = DecodeState.retransmit }, [])
      | EncodeState.encoding ↦ (s, assert_failed ∷ [])
      | EncodeState.unbuffered_encoding ↦ (s, assert_failed ∷ [])
    ] in
    if seq == s.decode_seq_start then again else (s, [])

-- The first switch.
unfoldable pub take_next_command : DebugArq → ℕ → DebugArq × List Effect
unfolding take_retransmit set_purgeable_response
take_next_command s seq = elim (s.decode_state) [
  | DecodeState.decoded ↦
      let (s1, out) =
        if seq == s.decode_seq
        then set_purgeable_response
            (clear (record s { decode_state = DecodeState.idle; encode_state = EncodeState.idle }))
            false
        else take_retransmit s seq in
      (s1, check (between_replies s.encode_state) ++ out)
  | DecodeState.retransmit ↦ take_retransmit s seq
  | DecodeState.idle ↦ (s, [])
  | DecodeState.decoding ↦ (s, [])
]

abbrev pub resend : List Bytes → List Effect
resend [] = []
resend (b ∷ bs) = down b true ∷ resend bs

-- A part of a command that is in sequence goes to the layer above.
unfoldable pub take_part :
    (Bytes → List Call) → DebugArq → ℕ → Option Bytes → DebugArq × List Effect
unfolding calls
take_part respond s seq (some b) =
    let (s1, out) = calls s (respond b) in
    let next = next_seq s1.decode_seq in
    if seq == s.decode_seq
    then (
      record s1 { decode_seq = next },
      up b ∷ (out ++ check (not (next == s1.decode_seq_start))),
    )
    else (s, [])
take_part respond s seq none = if seq == s.decode_seq then (s, overrun ∷ []) else (s, [])

-- The second switch.
unfoldable pub take_command :
    (Bytes → List Call) → DebugArq → ℕ → Option Bytes → DebugArq × List Effect
unfolding take_part
take_command respond s seq rest = elim (s.decode_state) [
  | DecodeState.retransmit ↦
      if next_seq seq == s.decode_seq
      then (record s { decode_state = DecodeState.decoded }, resend s.encode_buffer)
      else (s, [])
  | DecodeState.idle ↦
      take_part respond
        (record s { decode_seq_start = s.decode_seq; decode_state = DecodeState.decoding }) seq rest
  | DecodeState.decoding ↦ take_part respond s seq rest
  | DecodeState.decoded ↦ (s, [])
]

unfoldable pub decode : (Bytes → List Call) → DebugArq → Bytes → DebugArq × List Effect
unfolding take_reset take_next_command take_command
decode respond s [] = (s, [])
decode respond s (flags ∷ bytes) =
    let (seq, rest) = decode_seq 0 0x40 (flags ∷ bytes) in
    let (s1, out1) = take_reset s flags seq in
    let (s2, out2) = take_next_command s1 seq in
    let (s3, out3) = take_command respond s2 seq rest in (s3, out1 ++ (out2 ++ out3))

-- The constructor and `reset`, but for the layer below.
unfoldable pub initial : ℕ → DebugArq
initial max = record {
  decode_state = DecodeState.idle;
  decode_seq = 1;
  decode_seq_start = 0;
  encode_state = EncodeState.idle;
  encode_seq = 1;
  encode_seq_reset = true;
  max_encode_buffer = max;
  encode_buffer = [];
  encode_buffer_size = 0;
}

unfoldable pub reset : DebugArq → DebugArq
unfolding initial
reset s = initial s.max_encode_buffer

unfoldable pub mtu : ℕ → ℕ
mtu lower = if lower == 0 then 0 else if leb lower 4 then 1 else lower - 4
