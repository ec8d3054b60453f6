-- ===== src/Synchronizer/StoreJournal/Message/Copy.antt =====
-- `memcpy` into and out of the buffer of a store (src/synchronizer.cpp), byte by byte.
use libstored.Prelude.{
  ℕ, zero, suc, ◌≡◌, refl, sym, ap, ◌∙◌, ◌&&◌, [], ◌∷◌, ◌++◌, arith, length, length-append,
  length-take, length-drop, take, drop, get_or, Bool-cases, inl, inr, false,
}
use libstored.Prelude.{if◌then◌else◌, ◌+◌, ◌-◌, ◌<◌, ◌≤◌, ltb, leb}
use libstored.Protocol.{Bytes}
use libstored.Synchronizer.StoreJournal.{StoreJournal, bump_seq, shift_window}
use libstored.Synchronizer.StoreJournal.Message.{copy_to}

get_or-append :
    (xs ys : Bytes) (i : ℕ)
    → get_or (xs ++ ys) i 0
      ≡ (if ltb i (length xs) then get_or xs i 0 else get_or ys (i - length xs) 0)
get_or-append [] ys i = ground arith
get_or-append (x ∷ xs) ys zero = ground arith
get_or-append (x ∷ xs) ys (suc i) = get_or-append xs ys i ∙ ground arith

get_or-take : (n i : ℕ) (xs : Bytes) → i < n → get_or (take n xs) i 0 ≡ get_or xs i 0
get_or-take zero i xs h = absurd (omega arith)
get_or-take (suc n) i [] h = refl
get_or-take (suc n) zero (x ∷ xs) h = refl
get_or-take (suc n) (suc i) (x ∷ xs) h = get_or-take n i xs (omega arith)

get_or-drop : (n i : ℕ) (xs : Bytes) → get_or (drop n xs) i 0 ≡ get_or xs (n + i) 0
get_or-drop zero i xs = ap (λ k. get_or xs k 0) (omega arith)
get_or-drop (suc n) i [] = refl
get_or-drop (suc n) i (x ∷ xs) =
    get_or-drop n i xs ∙ sym (past x xs (n + i) (suc n + i) (omega arith))
  where
    past : (x : ℕ) (xs : Bytes) (a b : ℕ) → b ≡ suc a → get_or (x ∷ xs) b 0 ≡ get_or xs a 0
    past x xs a b e = ap (λ k. get_or (x ∷ xs) k 0) e

-- The bytes of an object in a store.
abbrev pub slice : Bytes → ℕ → ℕ → Bytes
slice buffer key len = take len (drop key buffer)

pub length-slice :
    (buffer : Bytes) (key len : ℕ) → key + len ≤ length buffer → length (slice buffer key len) ≡ len
length-slice buffer key len h =
    length-take len (drop key buffer) ∙ omega (arith, h, length-drop key buffer)

pub length-copy_to :
    (buffer : Bytes) (key : ℕ) (bytes : Bytes)
    → key + length bytes ≤ length buffer
    → length (copy_to buffer key bytes) ≡ length buffer
unfolding copy_to
length-copy_to buffer key bytes h = omega (
  arith,
  h,
  length-append (take key buffer) (bytes ++ drop (key + length bytes) buffer),
  length-append bytes (drop (key + length bytes) buffer),
  length-take key buffer,
  length-drop (key + length bytes) buffer,
)

-- After the copy of an object of one store into another one of the same size.
pub copy_to-slice :
    (src dst : Bytes) (key len i : ℕ)
    → key + len ≤ length src
    → length dst ≡ length src
    → get_or (copy_to dst key (slice src key len)) i 0
      ≡ (if leb key i && ltb i (key + len) then get_or src i 0 else get_or dst i 0)
unfolding copy_to
copy_to-slice src dst key len i h same =
    get_or-append (take key dst) (part ++ drop (key + length part) dst) i
    ∙ ap (λ r. if ltb i (length (take key dst)) then get_or (take key dst) i 0 else r)
        (get_or-append part (drop (key + length part) dst) (i - length (take key dst)))
    ∙ rw (front, long)
        (elim (Bool-cases (ltb i key)) [
          | inl a ↦ rw a (get_or-take key i dst (ground arith) ∙ ground arith)
          | inr a ↦ rw a (elim (Bool-cases (ltb (i - key) len)) [
            | inl b ↦ rw b (
                get_or-take len (i - key) (drop key src) (ground arith)
                ∙ get_or-drop key (i - key) src
                ∙ at (key + (i - key)) (ground arith) src
                ∙ ground arith)
            | inr b ↦ rw b (
                get_or-drop (key + len) (i - key - len) dst
                ∙ at (key + len + (i - key - len)) (ground arith) dst
                ∙ ground arith)
          ])
        ])
  where
    part : Bytes
    part = slice src key len

    long : length (slice src key len) ≡ len
    long = length-slice src key len h

    front : length (take key dst) ≡ key
    front = length-take key dst ∙ omega (arith, h, same)

    at : (a : ℕ) → a ≡ i → (xs : Bytes) → get_or xs a 0 ≡ get_or xs i 0
    at a e xs = ap (λ k. get_or xs k 0) e

pub bump_seq-buffer : (j : StoreJournal) → (bump_seq false j).buffer ≡ j.buffer
unfolding bump_seq shift_window
bump_seq-buffer j = ground arith

pub bump_seq-kind :
    (j : StoreJournal)
    → ((bump_seq false j).little ≡ j.little) × ((bump_seq false j).key_size ≡ j.key_size)
unfolding bump_seq shift_window
bump_seq-kind j = (ground arith, ground arith)
