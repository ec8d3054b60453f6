-- ===== src/Protocol/Loopback.antt =====
-- Loopback1 (src/protocol.cpp): one direction between two stacks. It collects the parts of a frame
-- in its buffer and hands the whole frame to the other stack.
use libstored.Prelude.{
  ℕ, ◌≡◌, ◌≤◌, refl, sym, ◌∙◌, Bool, true, false, List, [], ◌∷◌, ◌++◌, ◌+◌, arith, length,
  length-append, is_empty, ltb, leb, if◌then◌else◌, append-nil, ap,
}
use libstored.Protocol.{Bytes, Chunk, frames, pending}

abbrev extra_alloc : ℕ
extra_alloc = 32

-- `m_buffer` up to `m_len`, and the room that is allocated.
record Loopback1 : Type 0 where
  buffer : Bytes
  capacity : ℕ

-- `reserve`, where the allocation does not fail.
unfoldable reserve : Loopback1 → ℕ → Loopback1
reserve s capacity = if leb capacity s.capacity then s else record s { capacity = capacity }

-- The first part of `encode`: the bytes are copied behind those that are there.
unfoldable collect : Loopback1 → Bytes → Loopback1
unfolding reserve
collect s b =
    let needed = length s.buffer + length b in
    let s1 = if ltb s.capacity needed then reserve s (needed + extra_alloc) else s in
    if is_empty b then s else record s1 { buffer = s.buffer ++ b }

-- The new state, and the frame that the other stack decodes, if there is one.
unfoldable encode : Loopback1 → Bytes → Bool → Loopback1 × List Bytes
encode s b last =
    let s1 = collect s b in if last then (record s1 { buffer = [] }, s1.buffer ∷ []) else (s1, [])

unfoldable encode_calls : Loopback1 → List Chunk → Loopback1 × List Bytes
encode_calls s [] = (s, [])
encode_calls s ((b, last) ∷ cs) =
    let (s1, out) = encode s b last in let (s2, more) = encode_calls s1 cs in (s2, out ++ more)

-- `reset`, but for the layer below.
unfoldable reset : Loopback1 → Loopback1
reset s = record s { buffer = [] }

-- Both directions, from the constructor on.
record Loopback : Type 0 where
  a_to_b : Loopback1
  b_to_a : Loopback1

unfoldable initial : Loopback
initial = record {
  a_to_b = record { buffer = []; capacity = 0 };
  b_to_a = record { buffer = []; capacity = 0 };
}

unfoldable reserve_both : Loopback → ℕ → Loopback
unfolding reserve
reserve_both s capacity = record {
  a_to_b = reserve s.a_to_b capacity;
  b_to_a = reserve s.b_to_a capacity;
}

-- The bytes that are collected fit in the room.
abbrev HasRoom : Loopback1 → Type 0
HasRoom s = length s.buffer ≤ s.capacity

collect-buffer : (s : Loopback1) (b : Bytes) → (collect s b).buffer ≡ s.buffer ++ b
unfolding collect reserve
collect-buffer s [] = sym (append-nil s.buffer)
collect-buffer s (x ∷ b) = refl

collect-HasRoom : (s : Loopback1) (b : Bytes) → HasRoom s → HasRoom (collect s b)
unfolding collect reserve
collect-HasRoom s b h = ground (arith, length-append s.buffer b)

-- From a buffer that keeps to its room, and for any sequence of calls, the other stack decodes the
-- frames that the calls complete, what is left of the last one is in the buffer, and the buffer
-- never exceeds the room that is allocated.
loopback_encode_calls :
    (cs : List Chunk) (s : Loopback1)
    → HasRoom s
    → ((encode_calls s cs).1 ≡ frames s.buffer cs)
      × ((encode_calls s cs).0.buffer ≡ pending s.buffer cs)
      × HasRoom (encode_calls s cs).0
unfolding encode_calls encode frames pending
loopback_encode_calls [] s h = (refl, refl, h)
loopback_encode_calls ((b, true) ∷ cs) s h =
    let (e, p, room) =
      loopback_encode_calls cs (record (collect s b) { buffer = [] }) (omega arith) in
    (rw (collect-buffer s b, e) refl, p, room)
loopback_encode_calls ((b, false) ∷ cs) s h =
    let (e, p, room) = loopback_encode_calls cs (collect s b) (collect-HasRoom s b h) in
    (
      e ∙ ap (λ t. frames t cs) (collect-buffer s b),
      p ∙ ap (λ t. pending t cs) (collect-buffer s b),
      room,
    )
