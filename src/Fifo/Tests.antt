-- ===== src/Fifo/Tests.antt =====
-- Runs of Fifo and MessageFifo (include/libstored/fifo.h).
use libstored.Prelude.{
  ℕ, ◌≡◌, refl, true, false, List, [], ◌∷◌, ◌++◌, arith, length, ◌==◌, ◌^◌, not, ◌&&◌, ◌≤◌, ◌<◌,
  ◌-◌, ◌+◌, leb,
}
use libstored.Fifo.{
  Fifo, full, empty, available, front, pop_front, push_back, unbounded_move_threshold,
}
use libstored.Fifo.Ring.{IsRing, contents, push_back-contents, pop_front-contents}
use libstored.Fifo.Refine.{Op, push, pop, reset, run, queue_run, run-queue_run}
use libstored.Fifo.Growing.{push_back-available}
use libstored.Fifo.Message.{
  MessageFifo, append_back, push_back_partial, written, kept, rejected, bad_alloc, Append,
}
use libstored.Fifo.Message
use libstored.Fifo.Message.Bounds.{
  IsValid, InBounds, Overruns, append_back-InBounds, append_back-Overruns,
}

-- A queue for two elements, which holds one and is about to wrap around.
abbrev ring : Fifo ℕ
ring = record { bounded = true; size = 3; cell = λ i. i + 10; wp = 2; rp = 1 }

ring-IsRing : IsRing ring
ring-IsRing = ground arith

ring_has_room : full ring ≡ false
unfolding full
ring_has_room = refl

ring_has_some : empty ring ≡ false
unfolding empty
ring_has_some = refl

push_back_example :
    IsRing (push_back ring 7) × (contents (push_back ring 7) ≡ contents ring ++ (7 ∷ []))
push_back_example = push_back-contents ring 7 ring-IsRing ring_has_room

pop_front_example :
    IsRing (pop_front ring) × (contents ring ≡ front ring ∷ contents (pop_front ring))
pop_front_example = pop_front-contents ring ring-IsRing ring_has_some

abbrev ops : List (Op ℕ)
ops = push 7 ∷ pop ∷ push 8 ∷ pop ∷ pop ∷ reset ∷ push 9 ∷ pop ∷ []

run_example : run ring ops ≡ queue_run 2 (contents ring) ops
run_example = run-queue_run ops ring 2 ring-IsRing refl

-- A queue that grows, whose reader is 65 elements on.
abbrev grown : Fifo ℕ
grown = record { bounded = false; size = 66; cell = λ i. i; wp = 66; rp = 65 }

grown_example :
    (available (push_back grown 7) == available grown + 1) ≡ leb grown.rp unbounded_move_threshold
grown_example = push_back-available grown 7 refl (ground arith) (ground arith)

-- A buffer of eight bytes, for two messages.
abbrev fresh : MessageFifo
fresh = record {
  capacity = 8;
  pointers = 2 ^ 8;
  size = 8;
  cell = λ _. 0;
  rp = 0;
  wp = 0;
  wp_partial = 0;
  msg = record { bounded = true; size = 3; cell = λ _. (0, 0); wp = 0; rp = 0 };
}

abbrev appended : Append → MessageFifo
appended kept = fresh
appended rejected = fresh
appended bad_alloc = fresh
appended (written s p) = s

abbrev five_bytes : List ℕ
five_bytes = 1 ∷ 2 ∷ 3 ∷ 4 ∷ 5 ∷ []

abbrev two_bytes : List ℕ
two_bytes = 6 ∷ 7 ∷ []

abbrev six_bytes : List ℕ
six_bytes = 8 ∷ 9 ∷ 10 ∷ 11 ∷ 12 ∷ 13 ∷ []

-- A message of five bytes is in the queue, and two bytes of the next one.
abbrev waiting : MessageFifo
waiting =
    appended (append_back (push_back_partial (appended (append_back fresh five_bytes))) two_bytes)

-- The reader takes the message.
abbrev drained : MessageFifo
drained = Message.pop_front waiting

waiting-IsValid : IsValid waiting
unfolding append_back push_back_partial
waiting-IsValid = ground arith

drained-IsValid : IsValid drained
unfolding append_back push_back_partial Message.pop_front
drained-IsValid = ground arith

waiting_has_messages : (Message.empty waiting && not (waiting.wp_partial == waiting.wp)) ≡ false
unfolding append_back push_back_partial Message.empty
waiting_has_messages = refl

append_back_example : InBounds waiting six_bytes (append_back waiting six_bytes)
append_back_example = append_back-InBounds waiting six_bytes waiting-IsValid waiting_has_messages

drained_is_empty : Message.empty drained ≡ true
unfolding append_back push_back_partial Message.pop_front Message.empty
drained_is_empty = refl

drained_has_partial :
    (drained.wp < drained.wp_partial)
    × (length six_bytes + (drained.wp_partial - drained.wp) ≤ drained.capacity)
    × (drained.size < drained.wp_partial + length six_bytes)
unfolding append_back push_back_partial Message.pop_front
drained_has_partial = ground arith

append_back_overrun_example : Overruns drained six_bytes (append_back drained six_bytes)
append_back_overrun_example =
    append_back-Overruns drained six_bytes drained-IsValid drained_is_empty drained_has_partial.0
      drained_has_partial.1 drained_has_partial.2
