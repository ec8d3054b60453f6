-- ===== src/Fifo.antt =====
-- Buffer and Fifo (include/libstored/fifo.h): a queue in a circular buffer of fixed size, or in one
-- that grows. A buffer is a function on positions with a size.
pub mod Ring
pub mod Refine
pub mod Growing
pub mod Message
pub mod Tests
use libstored.Prelude.{ℕ, zero, suc, Bool, true, false, not, ◌&&◌, ◌||◌, List, [], ◌∷◌}
use libstored.Prelude.{◌==◌, if◌then◌else◌, ◌+◌, ◌-◌, ltb, leb, max, size_max}

module _ {ℓ} {A : Type ℓ} where
  -- `operator[]` for writing, `set` and `move` of Buffer, which copy `len` cells.
  unfoldable pub write : (ℕ → A) → ℕ → A → ℕ → A
  write cell p x i = if i == p then x else cell i

  unfoldable pub write_all : (ℕ → A) → ℕ → List A → ℕ → A
  unfolding write
  write_all cell p [] = cell
  write_all cell p (x ∷ xs) = write_all (write cell p x) (p + 1) xs

  unfoldable pub move : (ℕ → A) → ℕ → ℕ → ℕ → ℕ → A
  move cell dst src len i =
      if leb dst i && ltb i (dst + len) then cell (src + (i - dst)) else cell i

-- `size` is `m_buffer.size()`: one more than the capacity if the queue is bounded.
pub record Fifo {ℓ} (A : Type ℓ) : Type ℓ where
  pub bounded : Bool
  pub size : ℕ
  pub cell : ℕ → A
  pub wp : ℕ
  pub rp : ℕ

abbrev pub unbounded_move_threshold : ℕ
unbounded_move_threshold = 64

module _ {ℓ} {A : Type ℓ} where
  unfoldable pub capacity : Fifo A → ℕ
  capacity s = if s.bounded then s.size else size_max

  unfoldable pub empty : Fifo A → Bool
  empty s = s.wp == s.rp

  unfoldable pub available : Fifo A → ℕ
  available s = if leb s.rp s.wp then s.wp - s.rp else s.wp + s.size - s.rp

  unfoldable pub space : Fifo A → ℕ
  unfolding capacity available
  space s = capacity s - available s - 1

  unfoldable pub full : Fifo A → Bool
  unfolding space
  full s = space s == 0

  -- The source asserts that the queue is not empty.
  unfoldable pub front : Fifo A → A
  front s = s.cell s.rp

  unfoldable pub pop_front : Fifo A → Fifo A
  pop_front s =
      let next = s.rp + 1 in
      let rp = if ltb s.wp next && leb s.size next then next - s.size else next in
      if not s.bounded && s.wp == rp then record s { wp = 0; rp = 0 } else record s { rp = rp }

  -- `reserve_back`, with the two positions that it returns. It moves the cells of a queue that is
  -- not bounded to the start of the buffer, where its own read pointer is a local variable.
  unfoldable pub reserve_back : Fifo A → Fifo A × ℕ × ℕ
  unfolding move
  reserve_back s =
      let next = s.wp + 1 in
      let moves = ltb unbounded_move_threshold s.rp in
      let wp = if moves then s.wp - s.rp else s.wp in
      if s.bounded then (s, s.wp, if leb s.size next then next - s.size else next) else (
        record s {
          cell = if moves then move s.cell 0 s.rp (s.wp - s.rp) else s.cell;
          size = max s.size (wp + 1);
        },
        wp,
        wp + 1,
      )

  unfoldable pub push_back : Fifo A → A → Fifo A
  unfolding reserve_back write
  push_back s x =
      let (s1, wp, wp_next) = reserve_back s in
      record s1 { cell = write s1.cell wp x; wp = wp_next }

  -- The loop of `push_back` over a range.
  unfoldable pub push_all : Fifo A → List A → Fifo A
  push_all s [] = s
  push_all s (x ∷ xs) = push_all (push_back s x) xs

  unfoldable pub clear : Fifo A → Fifo A
  clear s = if s.bounded then record s { rp = s.wp } else record s { wp = 0; rp = 0 }
