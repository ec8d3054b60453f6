-- ===== src/Fifo/Growing.antt =====
-- Fifo (include/libstored/fifo.h), when it is not bounded.
use libstored.Prelude.{◌≡◌, false, arith, ◌==◌, ◌+◌, ◌≤◌, ◌<◌, leb}
use libstored.Fifo.{Fifo, available, reserve_back, push_back, unbounded_move_threshold}

module _ {ℓ} {A : Type ℓ} where
  -- A push to a queue that is not bounded, with its read pointer before its write pointer and that
  -- one within the buffer, makes one element more available exactly
  -- when the read pointer has not passed the threshold. Behind it the cells are moved to the start
  -- of the buffer, and the read pointer is not.
  pub push_back-available :
      (s : Fifo A) (x : A)
      → s.bounded ≡ false
      → s.rp < s.wp
      → s.wp ≤ s.size
      → (available (push_back s x) == available s + 1) ≡ leb s.rp unbounded_move_threshold
  unfolding push_back reserve_back available
  push_back-available s x b filled room = rw b (ground arith)
