-- ===== src/Directory/Numbers.antt =====
-- decodeInt and skipOffset (src/directory.cpp) go over the same bytes.
use libstored.Prelude.{ℕ, zero, suc, ◌≡◌, refl, ap, ◌∙◌, Option, none, some, Bool-cases, inl, inr}
use libstored.Prelude.{◌+◌, ◌-◌, ◌*◌, ◌%◌, ◌^◌, leb}
use libstored.Directory.{
  less, equal, greater, decode_from, decode_int, skip_from, skip_offset, jump, branch, pointers,
}

abbrev end_of : Option (ℕ × ℕ) → Option ℕ
end_of none = none
end_of (some (v, p)) = some p

module _ (byte : ℕ → ℕ) where
  skip_from-decode_from :
      (fuel v p : ℕ) → skip_from byte fuel p ≡ end_of (decode_from byte fuel v p)
  unfolding skip_from decode_from
  skip_from-decode_from zero v p = refl
  skip_from-decode_from (suc fuel) v p = elim (Bool-cases (leb 128 (byte p))) [
    | inl h ↦ rw h (skip_from-decode_from fuel ((v + byte p % 128) * 128 % 2 ^ 64) (p + 1))
    | inr h ↦ rw h refl
  ]

  skip_offset-decode_int :
      (p v p1 : ℕ) → decode_int byte p ≡ some (v, p1) → skip_offset byte p ≡ some p1
  unfolding skip_offset decode_int
  skip_offset-decode_int p v p1 h = skip_from-decode_from 10 0 p ∙ ap end_of h

  jump-decode_int :
      (p v p1 : ℕ) → decode_int byte p ≡ some (v, p1) → jump byte p ≡ some (p1 + v - 1)
  unfolding jump
  jump-decode_int p v p1 h = ap (λ o. elim o [ none ↦ none | some r ↦ some (r.1 + r.0 - 1) ]) h

  -- Where `find` and `list` go on from a char, by its two numbers.
  module _ (p v p1 w p2 : ℕ) (first : decode_int byte (p + 1) ≡ some (v, p1))
      (second : decode_int byte p1 ≡ some (w, p2)) where
    pub branch-less : branch byte less p ≡ some (p1 + v - 1)
    unfolding branch
    branch-less = jump-decode_int (p + 1) v p1 first

    pub branch-greater : branch byte greater p ≡ some (p2 + w - 1)
    unfolding branch
    branch-greater =
        ap (λ o. elim o [ none ↦ none | some q ↦ jump byte q ])
          (skip_offset-decode_int (p + 1) v p1 first)
        ∙ jump-decode_int p1 w p2 second

    pub branch-equal : branch byte equal p ≡ some p2
    unfolding branch
    branch-equal =
        ap (λ o. elim o [ none ↦ none | some q ↦ skip_offset byte q ])
          (skip_offset-decode_int (p + 1) v p1 first)
        ∙ skip_offset-decode_int p1 w p2 second

    pub pointers-decode_int : pointers byte p ≡ some (p1 + v - 1, p2 + w - 1, p2)
    unfolding pointers
    pointers-decode_int = rw (pointers, first, second) refl
