-- ===== src/Synchronizer/Map/Sorted.antt =====
-- The pairs of a std::map (Synchronizer/Map) are in the order of the keys, and each key is in it
-- once.
use libstored.Prelude.{
  ℕ, ◌≡◌, refl, sym, ap, ap₂, ◌∙◌, Bool, true, false, [], ◌∷◌, none, some, All, All-map, arith,
  Bool-cases, inl, inr,
}
use libstored.Prelude.{◌==◌, ◌<◌, ◌≤◌, ltb}
use mathlib.Core.Path.{subst}
use libstored.Synchronizer.Map.{Map, find, set, erase_if}

same : (k j : ℕ) → (k == j) ≡ true → j ≡ k
same k j h = ground (arith, h)

module _ {V : Type 0} where
  -- All keys are above a bound.
  abbrev pub Above : ℕ → Map V → Type 0
  Above k = All (λ e. k < e.0)

  abbrev pub Sorted : Map V → Type 0
  Sorted [] = Unit
  Sorted (e ∷ m) = Above e.0 m × Sorted m

  Above-lower : (j k : ℕ) (m : Map V) → j < k → Above k m → Above j m
  Above-lower j k m h a =
      All-map {P = λ (e : ℕ × V). k < e.0} {Q = λ (e : ℕ × V). j < e.0}
        (λ e above. omega (arith, h, above)) m a

  pub All-set :
      (P : ℕ × V → Type 0) (k : ℕ) (v : V) (m : Map V) → P (k, v) → All P m → All P (set k v m)
  All-set P k v [] new h = (new, tt)
  All-set P k v (e ∷ m) new h = elim (Bool-cases (k == e.0)) [
    | inl q ↦ rw q (new, h.1)
    | inr q ↦ elim (Bool-cases (ltb k e.0)) [
      | inl l ↦ rw (q, l) (new, h)
      | inr l ↦ rw (q, l) (h.0, All-set P k v m new h.1)
    ]
  ]

  pub Sorted-set : (k : ℕ) (v : V) (m : Map V) → Sorted m → Sorted (set k v m)
  Sorted-set k v [] s = (tt, tt)
  Sorted-set k v (e ∷ m) s = elim (Bool-cases (k == e.0)) [
    | inl q ↦ rw q (subst (λ b. Above b m) (same k e.0 q) s.0, s.1)
    | inr q ↦ elim (Bool-cases (ltb k e.0)) [
      | inl l ↦ rw (q, l) ((ground (arith, l), Above-lower k e.0 m (ground (arith, l)) s.0), s)
      | inr l ↦
          rw (q, l)
            (All-set (λ x. e.0 < x.0) k v m (ground (arith, q, l)) s.0, Sorted-set k v m s.1)
    ]
  ]

  pub All-erase_if :
      (P : ℕ × V → Type 0) (p : ℕ × V → Bool) (m : Map V) → All P m → All P (erase_if p m)
  All-erase_if P p [] h = tt
  All-erase_if P p (e ∷ m) h = elim (Bool-cases (p e)) [
    | inl q ↦ rw q (All-erase_if P p m h.1)
    | inr q ↦ rw q (h.0, All-erase_if P p m h.1)
  ]

  pub Sorted-erase_if : (p : ℕ × V → Bool) (m : Map V) → Sorted m → Sorted (erase_if p m)
  Sorted-erase_if p [] s = tt
  Sorted-erase_if p (e ∷ m) s = elim (Bool-cases (p e)) [
    | inl q ↦ rw q (Sorted-erase_if p m s.1)
    | inr q ↦ rw q (All-erase_if (λ x. e.0 < x.0) p m s.0, Sorted-erase_if p m s.1)
  ]

  pub find-Above : (k b : ℕ) (m : Map V) → Above b m → k ≤ b → find k m ≡ none
  find-Above k b [] a h = refl
  find-Above k b (e ∷ m) (x, a) h =
      let other : (k == e.0) ≡ false = ground (arith, x, h) in rw other (find-Above k b m a h)

  -- What is found after some are erased was there, and is not one of those.
  pub find-erase_if :
      (p : ℕ × V → Bool) (k : ℕ) (v : V) (m : Map V)
      → Sorted m
      → find k (erase_if p m) ≡ some v
      → (find k m ≡ some v) × (p (k, v) ≡ false)
  find-erase_if p k v [] s h = absurd (ground (arith, h))
  find-erase_if p k v (e ∷ m) s h = elim (Bool-cases (p e)) [
    | inl gone ↦
        let (later, out) = find-erase_if p k v m s.1 (sym (ap (find k) (erased gone)) ∙ h) in
        elim (Bool-cases (k == e.0)) [
          | inl q ↦
              absurd
                (ground (arith, sym (find-Above k e.0 m s.0 (omega (arith, same k e.0 q))) ∙ later))
          | inr q ↦ (rw q later, out)
        ]
    | inr kept ↦ elim (Bool-cases (k == e.0)) [
      | inl q ↦
          let first : some e.1 ≡ some v =
            sym (taken q (erase_if p m)) ∙ sym (ap (find k) (left kept)) ∙ h in
          (
            taken q m ∙ first,
            ap₂ (λ a b. p (a, b)) (sym (same k e.0 q))
                  (ap (λ o. elim o [ none ↦ v | some u ↦ u ]) (sym first))
                ∙ kept,
          )
      | inr q ↦
          let (later, out) =
            find-erase_if p k v m s.1
              (sym (passed q (erase_if p m)) ∙ sym (ap (find k) (left kept)) ∙ h) in
          (passed q m ∙ later, out)
    ]
  ]
    where
      erased : p e ≡ true → erase_if p (e ∷ m) ≡ erase_if p m
      erased g = rw g refl

      left : p e ≡ false → erase_if p (e ∷ m) ≡ e ∷ erase_if p m
      left g = rw g refl

      taken : (k == e.0) ≡ true → (rest : Map V) → find k (e ∷ rest) ≡ some e.1
      taken q rest = rw q refl

      passed : (k == e.0) ≡ false → (rest : Map V) → find k (e ∷ rest) ≡ find k rest
      passed q rest = rw q refl

  -- A pair of the map is found.
  pub All-found :
      (P : V → Type 0) (k : ℕ) (v : V) (m : Map V)
      → Sorted m
      → find k m ≡ some v
      → P v
      → All (λ (e : ℕ × V). e.0 ≡ k → P e.1) m
  All-found P k v [] s h p = tt
  All-found P k v (e ∷ m) s h p = elim (Bool-cases (k == e.0)) [
    | inl q ↦
        let here : some e.1 ≡ some v = sym (taken q) ∙ h in
        (
          λ _. subst P (ap (λ o. elim o [ none ↦ v | some u ↦ u ]) (sym here)) p,
          All-map {P = λ (x : ℕ × V). e.0 < x.0} {Q = λ (x : ℕ × V). x.0 ≡ k → P x.1}
              (λ x above eq. absurd (omega (arith, above, eq, same k e.0 q))) m s.0,
        )
    | inr q ↦ (λ eq. absurd (ground (arith, eq, q)), All-found P k v m s.1 (sym (passed q) ∙ h) p)
  ]
    where
      taken : (k == e.0) ≡ true → find k (e ∷ m) ≡ some e.1
      taken q = rw q refl

      passed : (k == e.0) ≡ false → find k (e ∷ m) ≡ find k m
      passed q = rw q refl
