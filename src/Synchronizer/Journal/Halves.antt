-- ===== src/Synchronizer/Journal/Halves.antt =====
-- The recursion of StoreJournal (src/synchronizer.cpp) on the ranges of its vector.
use libstored.Prelude.{
  ℕ, zero, suc, ◌≡◌, refl, ap, ap₂, ◌∙◌, List, [], ◌∷◌, ◌++◌, Option, none, some,
}
use libstored.Prelude.{
  ◌+◌, ◌/◌, ◌<◌, ◌≤◌, length, length-append, take, drop, take-append, drop-append, arith,
}

module _ {ℓ} {A : Type ℓ} where
  abbrev pub pivot : List A → List A → Option (List A × A × List A)
  pivot before [] = none
  pivot before (o ∷ behind) = some (before, o, behind)

  -- A range, split at its pivot, if it is not empty.
  unfoldable pub halves : List A → Option (List A × A × List A)
  halves xs = pivot (take (length xs / 2) xs) (drop (length xs / 2) xs)

  abbrev pub IsMiddle : List A → List A → Type 0
  IsMiddle before behind = length before ≡ (length before + suc (length behind)) / 2

  pub halves-middle :
      (before : List A) (o : A) (behind : List A)
      → IsMiddle before behind
      → halves (before ++ (o ∷ behind)) ≡ some (before, o, behind)
  unfolding halves
  halves-middle before o behind h =
      ap (λ k. pivot (take k (before ++ (o ∷ behind))) (drop k (before ++ (o ∷ behind)))) at_pivot
      ∙ ap₂ pivot (take-append before (o ∷ behind)) (drop-append before (o ∷ behind))
    where
      at_pivot : length (before ++ (o ∷ behind)) / 2 ≡ length before
      at_pivot = omega (arith, h, length-append before (o ∷ behind))

  -- A list, cut before one of its elements.
  abbrev pub Cut : ℕ → List A → Type ℓ
  Cut k xs =
      (before : List A) × (o : A) × (behind : List A) × (xs ≡ before ++ (o ∷ behind))
      × (length before ≡ k)

  pub Cut-at : (k : ℕ) (xs : List A) → k < length xs → Cut k xs
  Cut-at k [] h = absurd (omega arith)
  Cut-at zero (x ∷ xs) h = ([], x, xs, refl, refl)
  Cut-at (suc k) (x ∷ xs) h =
      let (before, o, behind, e, n) = Cut-at k xs (omega arith) in
      (x ∷ before, o, behind, ap (λ r. x ∷ r) e, ap suc n)

  -- To prove a property of a recursion on ranges: for the empty one, and for a range whose parts
  -- have it, with one round less of fuel.
  pub halving {κ} :
      (P : ℕ → List A → Type κ)
      → ((n : ℕ) → P n [])
      → ((n : ℕ) (before : List A) (o : A) (behind : List A)
          → IsMiddle before behind
          → P n before
          → P n behind
          → P (suc n) (before ++ (o ∷ behind)))
      → (n : ℕ) (xs : List A) → length xs ≤ n
      → P n xs
  halving P base step n [] h = base n
  halving P base step zero (x ∷ xs) h = absurd (omega arith)
  halving P base step (suc n) (x ∷ xs) h =
      let (before, o, behind, e, k) = Cut-at (suc (length xs) / 2) (x ∷ xs) (omega arith) in
      let total : suc (length xs) ≡ length before + suc (length behind) =
        ap length e ∙ length-append before (o ∷ behind) in
      rw e (
        step n before o behind (omega (arith, k, total))
          (halving P base step n before (omega (arith, h, total)))
          (halving P base step n behind (omega (arith, h, total, k))))
