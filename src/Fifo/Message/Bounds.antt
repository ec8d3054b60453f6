-- ===== src/Fifo/Message/Bounds.antt =====
-- MessageFifo::append_back (include/libstored/fifo.h): where it writes.
use libstored.Prelude.{
  ℕ, ◌≡◌, true, false, Bool-cases, inl, inr, not, ◌&&◌, List, arith, length, ◌==◌, ◌+◌, ◌-◌, ◌%◌,
  ◌≤◌, ◌<◌, ◌^◌, sub_size, ltb, leb,
}
use native.Mathlib.Nat.{mod-eq_of_lt}
use libstored.Fifo.Message.{
  MessageFifo, Append, kept, rejected, bad_alloc, written, empty, restart, wrap_partial, put,
  append_back,
}

-- A bounded buffer whose pointers are in order: what is read and what is written do not overlap
-- while there are messages.
pub record IsValid (s : MessageFifo) : Type 0 where
  pub capacity : s.size ≡ s.capacity
  pub filled : 0 < s.capacity
  pub small : s.capacity < s.pointers
  pub pointers : s.pointers ≤ 2 ^ 64
  pub partial : s.wp ≤ s.wp_partial
  pub within : s.wp_partial ≤ s.size
  pub rp : s.rp ≤ s.size
  pub apart : (not (empty s) && leb s.wp s.rp && ltb s.rp s.wp_partial) ≡ false

-- What is written is in the buffer, and the pointers stay in order.
abbrev pub InBounds : MessageFifo → List ℕ → Append → Type 0
InBounds s m kept = Unit {0}
InBounds s m rejected = Unit {0}
InBounds s m bad_alloc = Unit {0}
InBounds s m (written s' p) = (p + length m ≤ s.size) × IsValid s'

abbrev pub Overruns : MessageFifo → List ℕ → Append → Type 0
Overruns s m kept = ⊥
Overruns s m rejected = ⊥
Overruns s m bad_alloc = ⊥
Overruns s m (written s' p) = s.size < p + length m

put-InBounds :
    (s : MessageFifo) (m : List ℕ)
    → IsValid s
    → s.wp_partial + length m ≤ s.size
    → (not (empty s) && leb s.wp s.rp && ltb s.rp (s.wp_partial + length m)) ≡ false
    → InBounds s m (put s m)
unfolding put empty
put-InBounds s m v fits apart = ground (arith, in_range)
  where
    in_range : (s.wp_partial + length m) % s.pointers ≡ s.wp_partial + length m
    in_range = mod-eq_of_lt (omega arith)

restart-IsValid : (s : MessageFifo) → IsValid s → IsValid (restart s)
unfolding restart empty
restart-IsValid s v = ground arith

wrap_partial-IsValid :
    (s : MessageFifo) → IsValid s → s.wp_partial - s.wp ≤ s.rp → IsValid (wrap_partial s)
unfolding wrap_partial empty
wrap_partial-IsValid s v h = ground arith

-- In a valid buffer that holds messages, or that has no partial message, `append_back` writes within
-- the buffer and leaves it valid.
pub append_back-InBounds :
    (s : MessageFifo) (m : List ℕ)
    → IsValid s
    → (empty s && not (s.wp_partial == s.wp)) ≡ false
    → InBounds s m (append_back s m)
unfolding append_back sub_size
append_back-InBounds s m v start = elim (Bool-cases (length m == 0)) [
  | inl n ↦ rw n tt
  | inr n ↦
      elim (Bool-cases (ltb 0 s.capacity && ltb s.capacity (length m + (s.wp_partial - s.wp)))) [
        | inl t ↦ rw (n, t) tt
        | inr t ↦
            rw (n, t, bounded)
              (elim (Bool-cases (empty s)) [
                | inl e ↦ rw (e, nothing e) (at_start e (ground arith))
                | inr e ↦ rw e (elim (Bool-cases (ltb s.rp s.wp)) [
                  | inl w ↦ rw w (elim (Bool-cases (leb (s.wp_partial + length m) s.size)) [
                    | inl f ↦ rw f (put-InBounds s m v (ground arith) (ground arith))
                    | inr f ↦ rw f (elim (Bool-cases (leb (s.wp_partial - s.wp + length m) s.rp)) [
                      | inl g ↦ rw g (
                          put-InBounds (wrap_partial s) m (wrap_partial-IsValid s v (ground arith))
                            (unfold wrap_partial in ground arith)
                            (unfold wrap_partial in ground arith))
                      | inr g ↦ rw g tt
                    ])
                  ])
                  | inr w ↦ rw w (elim (Bool-cases (leb (length m) (sub_size s.rp s.wp_partial))) [
                    | inl f ↦ rw f (put-InBounds s m v (ground arith) (ground arith))
                    | inr f ↦ rw f tt
                  ])
                ])
              ])
      ]
]
  where
    bounded : (s.capacity == 0) ≡ false
    bounded = ground arith

    nothing : empty s ≡ true → (s.wp_partial == s.wp) ≡ true
    nothing e = ground (arith, e, start)

    fresh : MessageFifo
    fresh = record s { wp = 0; wp_partial = 0; rp = 0 }

    at_start : empty s ≡ true → length m ≤ s.size → InBounds s m (put fresh m)
    at_start e fits =
        put-InBounds fresh m (unfold empty in ground arith) (omega (arith, fits))
          (unfold empty in ground (arith, e))

-- Where the reader has emptied the queue while a message is partly there, `append_back` takes
-- whatever fits in the whole buffer, and writes behind the partial message: bytes that do not fit
-- there go past the end of the buffer.
pub append_back-Overruns :
    (s : MessageFifo) (m : List ℕ)
    → IsValid s
    → empty s ≡ true
    → s.wp < s.wp_partial
    → length m + (s.wp_partial - s.wp) ≤ s.capacity
    → s.size < s.wp_partial + length m
    → Overruns s m (append_back s m)
unfolding append_back
append_back-Overruns s m v e partial room past =
    rw (some_bytes, fits, bounded, e, same) (unfold put in past)
  where
    some_bytes : (length m == 0) ≡ false
    some_bytes = ground arith

    fits : (ltb 0 s.capacity && ltb s.capacity (length m + (s.wp_partial - s.wp))) ≡ false
    fits = ground arith

    bounded : (s.capacity == 0) ≡ false
    bounded = ground arith

    same : (s.wp_partial == s.wp) ≡ false
    same = ground arith
