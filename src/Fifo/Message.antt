-- ===== src/Fifo/Message.antt =====
-- MessageFifo (include/libstored/fifo.h): messages of any length in one buffer, and a queue of
-- their positions and lengths.
pub mod Bounds
use libstored.Prelude.{ℕ, Bool, true, false, not, ◌&&◌, ◌||◌, List, [], ◌∷◌, Option, none, some}
use libstored.Prelude.{
  ◌==◌, if◌then◌else◌, ◌+◌, ◌-◌, ◌%◌, ◌^◌, ltb, leb, max, length, size_max, sub_size,
}
use libstored.Fifo.{Fifo, move, write_all}
use libstored.Fifo

-- `pointers` is the number of values of `buffer_pointer`. `capacity` 0 is a buffer that grows.
pub record MessageFifo : Type 0 where
  pub capacity : ℕ
  pub pointers : ℕ
  pub size : ℕ
  pub cell : ℕ → ℕ
  pub rp : ℕ
  pub wp : ℕ
  pub wp_partial : ℕ
  pub msg : Fifo (ℕ × ℕ)

unfoldable pub bounded : MessageFifo → Bool
bounded s = ltb 0 s.capacity || s.msg.bounded

unfoldable pub empty : MessageFifo → Bool
unfolding Fifo.empty
empty s = Fifo.empty s.msg

unfoldable pub space : MessageFifo → ℕ
unfolding bounded empty Fifo.full
space s =
    let partial = s.wp_partial - s.wp in
    if not (bounded s)
    then size_max
    else if Fifo.full s.msg
    then 0
    else if s.wp + partial == s.rp
    then (if empty s then s.size else 0)
    else if ltb s.wp s.rp
    then s.rp - s.wp - partial
    else max (s.size - s.wp) s.rp - partial

unfoldable pub full : MessageFifo → Bool
unfolding space Fifo.full
full s = Fifo.full s.msg || space s == 0

-- The position and the length of the message in front.
unfoldable pub front : MessageFifo → ℕ × ℕ
unfolding Fifo.front
front s = Fifo.front s.msg

unfoldable pub pop_front : MessageFifo → MessageFifo
unfolding Fifo.front Fifo.pop_front
pop_front s =
    let (p, n) = Fifo.front s.msg in
    record s { rp = (p + n) % s.pointers; msg = Fifo.pop_front s.msg }

unfoldable pub push_back_partial : MessageFifo → MessageFifo
unfolding Fifo.push_back
push_back_partial s = record s {
  wp = s.wp_partial;
  msg = Fifo.push_back s.msg (s.wp, s.wp_partial - s.wp);
}

-- What `append_back` does: `written s p` has written the bytes at `p`, and `kept` is a message of
-- no bytes. It throws if the bytes cannot fit ever.
pub data Append : Type 0 where
  kept : Append
  rejected : Append
  bad_alloc : Append
  written : MessageFifo → ℕ → Append

-- The last lines: `set`, and the new pointer.
unfoldable pub put : MessageFifo → List ℕ → Append
unfolding write_all
put s m =
    written
      (record s {
        cell = write_all s.cell s.wp_partial m;
        wp_partial = (s.wp_partial + length m) % s.pointers;
      })
      s.wp_partial

-- An empty buffer with no partial message starts again at 0.
unfoldable pub restart : MessageFifo → MessageFifo
unfolding empty
restart s =
    if empty s && s.wp_partial == s.wp then record s { wp = 0; wp_partial = 0; rp = 0 } else s

-- A partial message that does not fit behind the others is moved to the start of the buffer.
unfoldable pub wrap_partial : MessageFifo → MessageFifo
unfolding move
wrap_partial s =
    let partial = s.wp_partial - s.wp in
    record s { cell = move s.cell 0 s.wp partial; wp = 0; wp_partial = partial }

unfoldable pub append_back : MessageFifo → List ℕ → Append
unfolding empty restart put wrap_partial
append_back s m =
    let n = length m in
    let partial = s.wp_partial - s.wp in
    let s0 = restart s in
    if n == 0
    then kept
    else if ltb 0 s.capacity && ltb s.capacity (n + partial)
    then bad_alloc
    else if s.capacity == 0
    then put (record s0 { size = max s0.size (s0.wp_partial + n) }) m
    else if empty s
    then put s0 m
    else if ltb s.rp s.wp
    then (if leb (s.wp_partial + n) s.size
        then put s m
        else if leb (partial + n) s.rp
        then put (wrap_partial s) m
        else rejected)
    else if leb n (sub_size s.rp s.wp_partial)
    then put s m
    else rejected

-- `push_back` of a message: the new state where it returns true.
unfoldable pub push_back : MessageFifo → List ℕ → Option MessageFifo
unfolding Fifo.full append_back push_back_partial
push_back s m = if Fifo.full s.msg then none else elim (append_back s m) [
  | kept ↦ some (push_back_partial s)
  | rejected ↦ none
  | bad_alloc ↦ none
  | written s1 p ↦ some (push_back_partial s1)
]

-- `push_back` without a message ends the partial one.
unfoldable pub push_back_end : MessageFifo → Option MessageFifo
unfolding Fifo.full push_back_partial
push_back_end s = if Fifo.full s.msg then none else some (push_back_partial s)

-- `pop_back` drops the partial message.
unfoldable pub pop_back : MessageFifo → MessageFifo
pop_back s = record s { wp_partial = s.wp }

unfoldable pub clear : MessageFifo → MessageFifo
unfolding Fifo.clear
clear s = record s { wp_partial = s.wp; rp = s.wp; msg = Fifo.clear s.msg }
