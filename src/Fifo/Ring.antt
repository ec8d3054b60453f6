-- ===== src/Fifo/Ring.antt =====
-- Fifo (include/libstored/fifo.h), when it is bounded: the circular buffer implements a queue.
use libstored.Prelude.{
  ℕ, zero, suc, ◌≡◌, refl, sym, ap, ◌∙◌, true, false, List, [], ◌∷◌, ◌++◌, arith,
}
use libstored.Prelude.{◌==◌, if◌then◌else◌, ◌+◌, ◌-◌, ◌≤◌, ◌<◌, leb}
use libstored.Fifo.{
  Fifo, write, empty, available, space, full, capacity, front, pop_front, reserve_back, push_back,
  clear,
}

-- The position behind `p` in a circular buffer.
abbrev pub after : ℕ → ℕ → ℕ
after size p = if leb size (p + 1) then 0 else p + 1

-- How far it is from `p` to `q`.
abbrev pub distance : ℕ → ℕ → ℕ → ℕ
distance size p q = if leb p q then q - p else q + size - p

module _ {ℓ} {A : Type ℓ} where
  -- The `n` cells from `p` on, the oldest element first.
  unfoldable pub read : (ℕ → A) → ℕ → ℕ → ℕ → List A
  read cell size p zero = []
  read cell size p (suc n) = cell p ∷ read cell size (after size p) n

  -- What the queue holds.
  unfoldable pub contents : Fifo A → List A
  unfolding read available
  contents s = read s.cell s.size s.rp (available s)

  pub record IsRing (s : Fifo A) : Type ℓ where
    pub bounded : s.bounded ≡ true
    pub wp : s.wp < s.size
    pub rp : s.rp < s.size

  -- A cell outside of what is read does not matter.
  read-write :
      (cell : ℕ → A) (size p q n : ℕ) (x : A)
      → p < size
      → q < size
      → n ≤ distance size p q
      → read (write cell q x) size p n ≡ read cell size p n
  unfolding read write
  read-write cell size p q zero x hp hq h = refl
  read-write cell size p q (suc n) x hp hq h =
      let other : (p == q) ≡ false = ground arith in
      rw (other, read-write cell size (after size p) q n x (ground arith) hq (ground arith)) refl

  -- One more cell at the end.
  read-snoc :
      (cell : ℕ → A) (size p q n : ℕ)
      → p < size
      → q < size
      → n ≡ distance size p q
      → read cell size p (suc n) ≡ read cell size p n ++ (cell q ∷ [])
  unfolding read
  read-snoc cell size p q zero hp hq h = ap (λ k. cell k ∷ []) (ground arith)
  read-snoc cell size p q (suc n) hp hq h =
      ap (λ r. cell p ∷ r) (read-snoc cell size (after size p) q n (ground arith) hq (ground arith))

  available-distance : (s : Fifo A) → available s ≡ distance s.size s.rp s.wp
  unfolding available
  available-distance s = refl

  abbrev next_wp : Fifo A → ℕ
  next_wp s = if leb s.size (s.wp + 1) then s.wp + 1 - s.size else s.wp + 1

  abbrev pushed : Fifo A → A → Fifo A
  pushed s x = record s { cell = write s.cell s.wp x; wp = next_wp s }

  push_back-pushed : (s : Fifo A) (x : A) → IsRing s → push_back s x ≡ pushed s x
  unfolding push_back reserve_back
  push_back-pushed s x v = rw v.bounded refl

  read_pushed :
      (cell : ℕ → A) (size p q : ℕ) (x : A)
      → p < size
      → q < size
      → read (write cell q x) size p (suc (distance size p q))
        ≡ read cell size p (distance size p q) ++ (x ∷ [])
  read_pushed cell size p q x hp hq =
      read-snoc (write cell q x) size p q (distance size p q) hp hq refl
      ∙ ap (λ r. r ++ (write cell q x q ∷ []))
          (read-write cell size p q (distance size p q) x hp hq (omega arith))
      ∙ ap (λ y. read cell size p (distance size p q) ++ (y ∷ [])) (unfold write in ground arith)

  -- An element more, where there is room: the invariant stays, and the contents grow at the end.
  pub push_back-contents :
      (s : Fifo A) (x : A)
      → IsRing s
      → full s ≡ false
      → IsRing (push_back s x) × (contents (push_back s x) ≡ contents s ++ (x ∷ []))
  push_back-contents s x v room = rw (push_back-pushed s x v) (ring, grown)
    where
      ring : IsRing (pushed s x)
      ring = ground arith

      one_more : available (pushed s x) ≡ suc (distance s.size s.rp s.wp)
      one_more = unfold available full space capacity in ground arith

      grown : contents (pushed s x) ≡ contents s ++ (x ∷ [])
      grown =
          unfold contents in
          ap (λ n. read (write s.cell s.wp x) s.size s.rp n) one_more
          ∙ read_pushed s.cell s.size s.rp s.wp x v.rp v.wp
          ∙ ap (λ n. read s.cell s.size s.rp n ++ (x ∷ [])) (sym (available-distance s))

  -- The element in front is the first of the contents, and to pop it leaves the others.
  pub pop_front-contents :
      (s : Fifo A)
      → IsRing s
      → empty s ≡ false
      → IsRing (pop_front s) × (contents s ≡ front s ∷ contents (pop_front s))
  pop_front-contents s v some_left = (ring, taken)
    where
      popped : pop_front s ≡ record s { rp = after s.size s.rp }
      popped =
          unfold pop_front empty in
          simp v.bounded (
            ap (λ k. record { bounded = true; size = s.size; cell = s.cell; wp = s.wp; rp = k })
              (ground arith))

      ring : IsRing (pop_front s)
      ring = rw popped (ground arith)

      one_less : available s ≡ suc (available (record s { rp = after s.size s.rp }))
      one_less = unfold available empty in ground arith

      taken : contents s ≡ front s ∷ contents (pop_front s)
      taken = unfold contents front in rw popped (ap (λ n. read s.cell s.size s.rp n) one_less)

  cleared : (s : Fifo A) → IsRing s → clear s ≡ record s { rp = s.wp }
  unfolding clear
  cleared s v = simp v.bounded

  pub clear-contents : (s : Fifo A) → IsRing s → IsRing (clear s) × (contents (clear s) ≡ [])
  clear-contents s v = rw (cleared s v) (ground arith, nothing)
    where
      none_left : available (record s { rp = s.wp }) ≡ 0
      none_left = unfold available in ground arith

      nothing : contents (record s { rp = s.wp }) ≡ []
      nothing = unfold contents in ap (λ n. read s.cell s.size s.wp n) none_left
