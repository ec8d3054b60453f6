-- ===== src/Directory/Matching.antt =====
-- What the loops of find (src/directory.cpp) over the chars of a name skip, as a match of names.
use libstored.Prelude.{
  ℕ, zero, suc, ◌≡◌, ◌≢◌, false, ◌||◌, [], ◌∷◌, ◌++◌, Option, none, some, arith, length, Bool-cases,
  inl, inr,
}
use libstored.Prelude.{◌==◌, ◌-◌, ◌≤◌, drop}
use mathlib.Core.Path.{subst}
use libstored.Protocol.{Bytes}
use libstored.Directory.{Comparison, less, equal, greater, skip_chars, skip_to_slash, unknown}

-- A name matches one that is reported: a '?' stands for any char but '/', and a '/' for all chars up
-- to the next '/'. What follows in the name does not matter.
pub data Matches : Bytes → Bytes → Type 0 where
  all_matched : {name : Bytes} → Matches [] name
  char : {c : ℕ} {pattern name : Bytes} → Matches pattern name → Matches (c ∷ pattern) (c ∷ name)
  any_char :
      {c : ℕ} {pattern name : Bytes}
      → c ≢ 47
      → Matches pattern name
      → Matches (63 ∷ pattern) (c ∷ name)
  skip_char :
      {c : ℕ} {pattern name : Bytes}
      → c ≢ 47
      → Matches (47 ∷ pattern) name
      → Matches (47 ∷ pattern) (c ∷ name)

-- What a loop over the chars of a name leaves, if it goes on: the length is that of a whole name
-- still, and what the loop skipped is matched by `more`.
abbrev pub Skips : Bytes → Bytes → Option (Bytes × ℕ) → Type 0
Skips more name none = Unit
Skips more name (some (rest, len)) =
    (length rest ≤ len)
    × ((pattern : Bytes) → Matches pattern rest → Matches (more ++ pattern) name)

Skips-any_char :
    (more name : Bytes) (c : ℕ) (r : Option (Bytes × ℕ))
    → c ≢ 47
    → Skips more name r
    → Skips (63 ∷ more) (c ∷ name) r
Skips-any_char more name c none n h = tt
Skips-any_char more name c (some r) n (enough, h) = (enough, λ q m. any_char n (h q m))

Skips-skip_char :
    (name : Bytes) (c : ℕ) (r : Option (Bytes × ℕ))
    → c ≢ 47
    → Skips (47 ∷ []) name r
    → Skips (47 ∷ []) (c ∷ name) r
Skips-skip_char name c none n h = tt
Skips-skip_char name c (some r) n (enough, h) = (enough, λ q m. skip_char n (h q m))

pub skip_chars-Skips :
    (n : ℕ) (name : Bytes) (len : ℕ)
    → length name ≤ len
    → Skips (unknown n) name (skip_chars n name len)
unfolding skip_chars unknown
skip_chars-Skips zero name len enough = (enough, λ q m. m)
skip_chars-Skips (suc n) [] len enough = tt
skip_chars-Skips (suc n) (c ∷ name) len enough = elim (Bool-cases (len == 0 || c == 47)) [
  | inl e ↦ rw e tt
  | inr e ↦ rw e (
      Skips-any_char (unknown n) name c (skip_chars n name (len - 1)) (λ q. ground (arith, e, q))
        (skip_chars-Skips n name (len - 1) (omega (arith, enough))))
]

pub skip_to_slash-Skips :
    (name : Bytes) (len : ℕ) → length name ≤ len → Skips (47 ∷ []) name (skip_to_slash name len)
unfolding skip_to_slash
skip_to_slash-Skips [] len enough = tt
skip_to_slash-Skips (c ∷ name) len enough =
    let more : (len == 0) ≡ false = ground (arith, enough) in
    elim (Bool-cases (c == 47)) [
      | inl e ↦
          let slash_char : 47 ≡ c = ground (arith, e) in
          rw (more, e)
            (
              omega (arith, enough),
              λ q m. subst (λ x. Matches (47 ∷ q) (x ∷ name)) slash_char (char m),
            )
      | inr e ↦
          rw (more, e)
            (Skips-skip_char name c (skip_to_slash name (len - 1)) (λ q. ground (arith, e, q))
              (skip_to_slash-Skips name (len - 1) (omega (arith, enough))))
    ]

-- Only the same char is equal.
abbrev pub Equals : ℕ → Bytes → Comparison → Type 0
Equals c name equal = name ≡ c ∷ drop 1 name
Equals c name less = Unit
Equals c name greater = Unit
