-- ===== src/Protocol/Arq/Invariant.antt =====
-- The invariant of ArqLayer (src/protocol.cpp), and that no assertion of it fails.
use libstored.Prelude.{
  ℕ, ◌≡◌, ◌≢◌, refl, Bool, true, false, not, ◌&&◌, List, [], ◌∷◌, ◌++◌, ◌==◌, ◌+◌, ◌≤◌,
  if◌then◌else◌, arith, All, All-append, Bool-cases, inl, inr, length, is_empty, ltb, leb, bit_and,
  bit_or,
}
use libstored.Protocol.{Bytes, Chunk}
use libstored.Protocol.Arq.{
  Arq, ArqEvent, Effect, assert_failed, check, raise, is_idle, front, first_byte, waiting_for_ack,
  pop_encode_queue, push_encode_queue_raw, push_encode_queue, transmit, append_back, check_overflow,
  enqueue, encode, encode_calls, take_ack, process, transmit_unless_done, close_unless_done,
  take_next, decode, queue_dummy, keep_alive, flush, next_seq, nop_flag, ack_flag, seq_mask,
}
use libstored.Protocol.Arq.Seq.{IsSeq, next_seq_bounds}

abbrev pub IsFilled : List Bytes → Type 0
IsFilled q = All (λ (m : Bytes). is_empty m ≡ false) q

-- No queued message is empty, since each has its header; a message that is being encoded is in
-- the queue; the numbers are in range.
pub record IsValid (s : Arq) : Type 0 where
  pub filled : IsFilled s.encode_queue
  pub open_message : (is_empty s.encode_queue && not (is_idle s.encode_state)) ≡ false
  pub send_seq : IsSeq s.send_seq
  pub recv_seq : IsSeq s.recv_seq
  pub retransmits : s.retransmits ≤ 255

abbrev pub NoFault : List Effect → Type 0
NoFault es = All (λ (e : Effect). e ≢ assert_failed) es

abbrev pub IsSafe : Arq × List Effect → Type 0
IsSafe r = IsValid r.0 × NoFault r.1

raise-NoFault : (b : Bool) (e : ArqEvent) → NoFault (raise b e)
unfolding raise
raise-NoFault true e = ((λ p. cc p), tt)
raise-NoFault false ArqEvent.encode_buffer_overflow = ((λ p. cc p), tt)
raise-NoFault false ArqEvent.none = tt
raise-NoFault false ArqEvent.reconnect = tt
raise-NoFault false ArqEvent.retransmit = tt

when-NoFault : (b : Bool) (es : List Effect) → NoFault es → NoFault (if b then es else [])
when-NoFault true es h = h
when-NoFault false es h = tt

transmit-IsValid : (s : Arq) → IsValid s → IsValid (transmit s).0
unfolding transmit
transmit-IsValid s v = ground arith

transmit-NoFault : (s : Arq) → IsValid s → NoFault (transmit s).1
unfolding transmit waiting_for_ack check
transmit-NoFault s v = elim (Bool-cases (is_empty s.encode_queue)) [
  | inl e ↦ rw e tt
  | inr e ↦ elim (Bool-cases (length s.encode_queue == 1 && not (is_idle s.encode_state))) [
    | inl e2 ↦ rw (e, e2) tt
    | inr e2 ↦
        rw (e, e2)
          (All-append _ (if tenth then raise s.has_callback ArqEvent.retransmit else []) _
            (when-NoFault tenth _ (raise-NoFault s.has_callback ArqEvent.retransmit))
            ((λ p. cc p), tt))
  ]
]
  where
    tenth : Bool
    tenth = leb 10 (if ltb s.retransmits 255 then s.retransmits + 1 else s.retransmits)

append_back-IsFilled : (q : List Bytes) (b : Bytes) → IsFilled q → IsFilled (append_back q b)
unfolding append_back
append_back-IsFilled [] b f = tt
append_back-IsFilled ((x ∷ m) ∷ []) b f = (refl, tt)
append_back-IsFilled ([] ∷ []) b f = cc (f.0)
append_back-IsFilled (m ∷ k ∷ q) b f = (f.0, append_back-IsFilled (k ∷ q) b f.1)

IsFilled-snoc : (q : List Bytes) (h : ℕ) (b : Bytes) → IsFilled q → IsFilled (q ++ ((h ∷ b) ∷ []))
IsFilled-snoc q h b f = All-append _ q ((h ∷ b) ∷ []) f (refl, tt)

snoc_some : (q : List Bytes) (m : Bytes) → is_empty (q ++ (m ∷ [])) ≡ false
snoc_some [] m = refl
snoc_some (k ∷ q) m = refl

back_some : (q : List Bytes) (b : Bytes) → is_empty (append_back q b) ≡ is_empty q
unfolding append_back
back_some [] b = refl
back_some (m ∷ []) b = refl
back_some (m ∷ k ∷ q) b = refl

either-IsSafe :
    (b : Bool) (x y : Arq × List Effect) → IsSafe x → IsSafe y → IsSafe (if b then x else y)
either-IsSafe true x y hx hy = hx
either-IsSafe false x y hx hy = hy

enqueue-IsSafe : (s : Arq) (b : Bytes) (last : Bool) → IsValid s → IsSafe (enqueue s b last)
unfolding enqueue push_encode_queue push_encode_queue_raw check
enqueue-IsSafe s b last v = ground (
  arith,
  IsFilled-snoc s.encode_queue s.send_seq b v.filled,
  snoc_some s.encode_queue (s.send_seq ∷ b),
  back_some s.encode_queue b,
  append_back-IsFilled s.encode_queue b v.filled,
  next_seq_bounds s.send_seq v.send_seq,
)

overflow-NoFault : (s : Arq) (b : Bytes) → NoFault (check_overflow s b)
unfolding check_overflow
overflow-NoFault s b =
    when-NoFault _ _ (raise-NoFault s.has_callback ArqEvent.encode_buffer_overflow)

-- `encode` keeps the invariant, and no assertion fails in it.
pub encode-IsSafe : (s : Arq) (b : Bytes) (last : Bool) → IsValid s → IsSafe (encode s b last)
unfolding encode
encode-IsSafe s b last v =
    let (v1, checked) = enqueue-IsSafe s b last v in
    let s1 = (enqueue s b last).0 in
    (
      transmit-IsValid s1 v1,
      All-append _ (check_overflow s b) _ (overflow-NoFault s b)
          (All-append _ (enqueue s b last).1 _ checked (transmit-NoFault s1 v1)),
    )

encode_calls-IsSafe : (s : Arq) (cs : List Chunk) → IsValid s → IsSafe (encode_calls s cs)
unfolding encode_calls
encode_calls-IsSafe s [] v = (v, tt)
encode_calls-IsSafe s ((b, last) ∷ cs) v =
    let (v1, out) = encode-IsSafe s b last v in
    let (v2, more) = encode_calls-IsSafe (encode s b last).0 cs v1 in
    (v2, All-append _ (encode s b last).1 _ out more)

pop-IsValid :
    (s : Arq)
    → IsValid s
    → waiting_for_ack s ≡ true
    → IsValid (record (pop_encode_queue s).0 { retransmits = 0 })
unfolding pop_encode_queue waiting_for_ack
pop-IsValid s v w = ground arith

pop-NoFault : (s : Arq) → waiting_for_ack s ≡ true → NoFault (pop_encode_queue s).1
unfolding pop_encode_queue waiting_for_ack
pop-NoFault s w = ground arith

take_ack-IsSafe : (s : Arq) (header : ℕ) → IsValid s → IsSafe (take_ack s header)
unfolding take_ack
take_ack-IsSafe s header v = elim (Bool-cases (waiting_for_ack s)) [
  | inl w ↦
      elim (Bool-cases
        (bit_and header seq_mask == bit_and (first_byte (front s.encode_queue)) seq_mask)) [
          | inl e ↦
              let popped = record (pop_encode_queue s).0 { retransmits = 0 } in
              rw (w, e)
                (
                  transmit-IsValid popped (pop-IsValid s v w),
                  All-append _ (pop_encode_queue s).1 _ (pop-NoFault s w)
                      (transmit-NoFault popped (pop-IsValid s v w)),
                )
          | inr e ↦ rw (w, e) (v, tt)
        ]
  | inr w ↦ rw w (v, tt)
]

advance-IsValid :
    (s : Arq)
    → IsValid s
    → IsValid (record s { recv_seq = next_seq s.recv_seq; did_transmit = false })
advance-IsValid s v = ground (arith, next_seq_bounds s.recv_seq v.recv_seq)

process-IsSafe :
    (respond : Bytes → List Chunk) (s : Arq) (header : ℕ) (payload : Bytes)
    → IsValid s
    → IsSafe (process respond s header payload)
unfolding process
process-IsSafe respond s header payload v = elim (Bool-cases (bit_and header nop_flag == 0)) [
  | inl e ↦
      let (v1, out) = encode_calls-IsSafe s (respond payload) v in rw e (v1, ((λ p. cc p), out))
  | inr e ↦ rw e (v, tt)
]

transmit_unless_done-IsSafe : (s : Arq) → IsValid s → IsSafe (transmit_unless_done s)
unfolding transmit_unless_done
transmit_unless_done-IsSafe s v =
    either-IsSafe s.did_transmit _ _ (v, tt) (transmit-IsValid s v, transmit-NoFault s v)

close_unless_done-IsSafe : (s : Arq) → IsValid s → IsSafe (close_unless_done s)
unfolding close_unless_done
close_unless_done-IsSafe s v =
    either-IsSafe s.did_transmit _ _ (v, tt)
      (
        record {
          filled = v.filled;
          open_message = v.open_message;
          send_seq = v.send_seq;
          recv_seq = v.recv_seq;
          retransmits = v.retransmits;
        },
        ((λ p. cc p), tt),
      )

take_next-IsSafe :
    (respond : Bytes → List Chunk) (s : Arq) (header : ℕ) (payload : Bytes)
    → IsValid s
    → IsSafe (take_next respond s header payload)
unfolding take_next
take_next-IsSafe respond s header payload v =
    let s1 = record s { recv_seq = next_seq s.recv_seq; did_transmit = false } in
    let (v2, responded) = process-IsSafe respond s1 header payload (advance-IsValid s v) in
    let s2 = (process respond s1 header payload).0 in
    let (v3, sent) = transmit_unless_done-IsSafe s2 v2 in
    let s3 = (transmit_unless_done s2).0 in
    let (v4, closed) = close_unless_done-IsSafe s3 v3 in
    (
      v4,
      (
        (λ p. cc p),
        All-append _ (process respond s1 header payload).1 _ responded
            (All-append _ (transmit_unless_done s2).1 _ sent closed),
      ),
    )

-- Whatever buffer comes in, and whatever the layer above answers, `decode` keeps the invariant and
-- no assertion fails in it.
pub decode-IsSafe :
    (respond : Bytes → List Chunk) (s : Arq) (buffer : Bytes)
    → IsValid s
    → IsSafe (decode respond s buffer)
unfolding decode
decode-IsSafe respond s [] v = (v, tt)
decode-IsSafe respond s (header ∷ rest) v =
    let (va, out) = take_ack-IsSafe s header v in
    let (v2, more) = decode-IsSafe respond (take_ack s header).0 rest va in
    either-IsSafe (not (bit_and header ack_flag == 0)) _ _
      (v2, All-append _ (take_ack s header).1 _ out more)
      (either-IsSafe (bit_and header seq_mask == s.recv_seq) _ _
        (take_next-IsSafe respond s header rest v)
        (either-IsSafe (next_seq (bit_and header seq_mask) == s.recv_seq) _ _ (v, ((λ p. cc p), tt))
          (either-IsSafe (bit_and header seq_mask == 0) _ _
            (v, raise-NoFault s.has_callback ArqEvent.reconnect) (v, tt))))

dummy-IsValid : (s : Arq) → IsValid s → IsValid (queue_dummy s)
unfolding queue_dummy
dummy-IsValid s v = ground (
  arith,
  IsFilled-snoc s.encode_queue (bit_or s.send_seq nop_flag) [] v.filled,
  snoc_some s.encode_queue (bit_or s.send_seq nop_flag ∷ []),
  next_seq_bounds s.send_seq v.send_seq,
)

-- `keepAlive` keeps the invariant, and no assertion fails in it.
keep_alive-IsSafe : (s : Arq) → IsValid s → IsSafe (keep_alive s)
unfolding keep_alive
keep_alive-IsSafe s v =
    let v1 = dummy-IsValid s v in
    (transmit-IsValid (queue_dummy s) v1, transmit-NoFault (queue_dummy s) v1)

-- `flush` keeps the invariant, and no assertion fails in it, whatever the layer below returns.
flush-IsSafe :
    (below : Bool) (s : Arq) → IsValid s → IsSafe (let (s1, out, did) = flush below s in (s1, out))
unfolding flush
flush-IsSafe below s v = (transmit-IsValid s v, transmit-NoFault s v)
