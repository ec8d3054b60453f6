-- ===== src/Fifo/Refine.antt =====
-- Fifo (include/libstored/fifo.h), when it is bounded: a client cannot tell it from a queue that
-- holds a limited number of elements.
use libstored.Prelude.{
  ℕ, zero, suc, ◌≡◌, refl, ap, ◌∙◌, true, List, [], ◌∷◌, ◌++◌, arith, length, Option, none, some,
  Bool-cases, inl, inr,
}
use libstored.Prelude.{◌==◌, if◌then◌else◌}
use libstored.Fifo.{
  Fifo, empty, available, space, full, capacity, front, pop_front, reserve_back, push_back, clear,
}
use libstored.Fifo.Ring.{
  IsRing, read, after, contents, push_back-contents, pop_front-contents, clear-contents,
}

-- What a client does.
pub data Op {ℓ} (A : Type ℓ) : Type ℓ where
  push : A → Op A
  pop : Op A
  reset : Op A

module _ {ℓ} {A : Type ℓ} where
  -- The elements that a sequence of operations takes out, or none where an assertion fails: a push
  -- to a full queue, a pop of an empty one.
  unfoldable pub run : Fifo A → List (Op A) → Option (List A)
  run s [] = some []
  run s (push x ∷ ops) = let rest = run (push_back s x) ops in if full s then none else rest
  run s (pop ∷ ops) =
      let rest = run (pop_front s) ops in
      if empty s then none else elim rest [ none ↦ none | some xs ↦ some (front s ∷ xs) ]
  run s (reset ∷ ops) = run (clear s) ops

  -- The same of a list that holds `n` elements at most.
  unfoldable pub queue_run : ℕ → List A → List (Op A) → Option (List A)
  queue_run n q [] = some []
  queue_run n q (push x ∷ ops) =
      let rest = queue_run n (q ++ (x ∷ [])) ops in if length q == n then none else rest
  queue_run n [] (pop ∷ ops) = none
  queue_run n (x ∷ q) (pop ∷ ops) = elim (queue_run n q ops) [
    | none ↦ none
    | some xs ↦ some (x ∷ xs)
  ]
  queue_run n q (reset ∷ ops) = queue_run n [] ops

  length-read : (cell : ℕ → A) (size p n : ℕ) → length (read cell size p n) ≡ n
  unfolding read
  length-read cell size p zero = refl
  length-read cell size p (suc n) = ap suc (length-read cell size (after size p) n)

  pub length-contents : (s : Fifo A) → length (contents s) ≡ available s
  unfolding contents
  length-contents s = length-read s.cell s.size s.rp (available s)

  full-length :
      (s : Fifo A) (n : ℕ) → IsRing s → s.size ≡ suc n → full s ≡ (length (contents s) == n)
  unfolding full space capacity available
  full-length s n v e = rw (length-contents s) (ground arith)

  empty-contents : (s : Fifo A) → IsRing s → empty s ≡ true → contents s ≡ []
  empty-contents s v e = unfold contents in ap (λ n. read s.cell s.size s.rp n) none_left
    where
      none_left : available s ≡ 0
      none_left = unfold available empty in ground arith

  push_back-size : (s : Fifo A) (x : A) → IsRing s → (push_back s x).size ≡ s.size
  unfolding push_back reserve_back
  push_back-size s x v = rw v.bounded refl

  pop_front-size : (s : Fifo A) → (pop_front s).size ≡ s.size
  unfolding pop_front
  pop_front-size s = ground arith

  clear-size : (s : Fifo A) → (clear s).size ≡ s.size
  unfolding clear
  clear-size s = ground arith

  -- From any state of a bounded queue of `n + 1` cells whose pointers are within them, every
  -- sequence of operations takes out the same elements as from the list of its contents, and fails
  -- an assertion exactly when the list, limited to `n` elements, does not allow an operation.
  pub run-queue_run :
      (ops : List (Op A)) (s : Fifo A) (n : ℕ)
      → IsRing s
      → s.size ≡ suc n
      → run s ops ≡ queue_run n (contents s) ops
  unfolding run queue_run
  run-queue_run [] s n v e = refl
  run-queue_run (push x ∷ ops) s n v e = rw (← full-length s n v e) (elim (Bool-cases (full s)) [
    | inl h ↦ rw h refl
    | inr h ↦
        let (ring, grown) = push_back-contents s x v h in
        rw h (
          run-queue_run ops (push_back s x) n ring (push_back-size s x v ∙ e)
          ∙ ap (λ q. queue_run n q ops) grown)
  ])
  run-queue_run (pop ∷ ops) s n v e = elim (Bool-cases (empty s)) [
    | inl h ↦ rw (h, empty-contents s v h) refl
    | inr h ↦
        let (ring, taken) = pop_front-contents s v h in
        rw (h, taken, run-queue_run ops (pop_front s) n ring (pop_front-size s ∙ e)) refl
  ]
  run-queue_run (reset ∷ ops) s n v e =
      let (ring, nothing) = clear-contents s v in
      run-queue_run ops (clear s) n ring (clear-size s ∙ e) ∙ ap (λ q. queue_run n q ops) nothing
