-- ===== src/Synchronizer/Journal/Sort.antt =====
-- std::sort of the vector of StoreJournal (src/synchronizer.cpp), by what it promises: a
-- permutation that is ordered by the keys. On keys that are all different it keeps the records.
use libstored.Prelude.{
  ℕ, ◌≡◌, ◌≢◌, refl, sym, ◌∙◌, List, [], ◌∷◌, ◌++◌, All, All-append, none, arith,
}
use libstored.Prelude.{◌≤◌}
use mathlib.Core.Path.{subst, ap₂}
use mathlib.Core.List.{Permᴰ}
use mathlib.Core.List.Permᴰ
use libstored.Synchronizer.Journal.{ObjectInfo}
use libstored.Synchronizer.Journal.Stamp.{keys, stamp, IsAscending, IsAbove}

abbrev pub IsOrdered : List ObjectInfo → Type 0
IsOrdered [] = Unit {0}
IsOrdered (o ∷ xs) = All (λ (p : ObjectInfo). o.key ≤ p.key) xs × IsOrdered xs

-- What std::sort with ObjectInfoComparator promises.
abbrev pub IsSort : (List ObjectInfo → List ObjectInfo) → Type 0
IsSort sort = (xs : List ObjectInfo) → Permᴰ (sort xs) xs × IsOrdered (sort xs)

abbrev pub AllOther : ℕ → List ObjectInfo → Type 0
AllOther k xs = All (λ (p : ObjectInfo). k ≢ p.key) xs

abbrev pub AllDifferent : List ObjectInfo → Type 0
AllDifferent [] = Unit {0}
AllDifferent (o ∷ xs) = AllOther o.key xs × AllDifferent xs

module _ (P : ObjectInfo → Type 0) where
  pub perm-All : (xs ys : List ObjectInfo) → Permᴰ xs ys → All P xs → All P ys
  perm-All xs ys Permᴰ.nil h = h
  perm-All xs ys (Permᴰ.cons e p) h = (rw e at h.0, perm-All _ _ p h.1)
  perm-All xs ys (Permᴰ.swap e f) h = (rw f at h.1.0, (rw e at h.0, h.1.1))
  perm-All xs ys (Permᴰ.trans p q) h = perm-All _ _ q (perm-All _ _ p h)

different_swapped :
    (a b : ObjectInfo) (xs : List ObjectInfo)
    → AllDifferent (a ∷ b ∷ xs)
    → AllDifferent (b ∷ a ∷ xs)
different_swapped a b xs h = ((λ same. h.0.0 (sym same), h.1.0), (h.0.1, h.1.1))

stamp_swapped :
    (k : ℕ) (a b : ObjectInfo) (xs : List ObjectInfo)
    → a.key ≢ b.key
    → stamp k (a ∷ b ∷ xs) ≡ stamp k (b ∷ a ∷ xs)
unfolding stamp
stamp_swapped k a b xs h = ground arith

pub perm-AllDifferent : (xs ys : List ObjectInfo) → Permᴰ xs ys → AllDifferent xs → AllDifferent ys
perm-AllDifferent xs ys Permᴰ.nil h = h
perm-AllDifferent xs ys (Permᴰ.cons e p) h =
    (rw e at (perm-All (λ (q : ObjectInfo). _ ≢ q.key) _ _ p h.0), perm-AllDifferent _ _ p h.1)
perm-AllDifferent xs ys (Permᴰ.swap {a = a} {b = b} {l = l} e f) h =
    subst AllDifferent (ap₂ (λ x y. x ∷ y ∷ l) f e) (different_swapped a b l h)
perm-AllDifferent xs ys (Permᴰ.trans p q) h = perm-AllDifferent _ _ q (perm-AllDifferent _ _ p h)

-- On different keys, a permutation has the same records.
pub perm-stamp :
    (k : ℕ) (xs ys : List ObjectInfo) → Permᴰ xs ys → AllDifferent xs → stamp k xs ≡ stamp k ys
unfolding stamp
perm-stamp k xs ys Permᴰ.nil h = refl
perm-stamp k xs ys (Permᴰ.cons e p) h = rw e (ground (arith, perm-stamp k _ _ p h.1))
perm-stamp k xs ys (Permᴰ.swap {a' = a'} {b' = b'} {l = l} e f) h =
    rw (e, f) (stamp_swapped k b' a' l (rw (e, f) at h.0.0))
perm-stamp k xs ys (Permᴰ.trans p q) h =
    perm-stamp k _ _ p h ∙ perm-stamp k _ _ q (perm-AllDifferent _ _ p h)

-- Different keys in order are ascending.
ordered-IsAscending :
    (xs : List ObjectInfo) → IsOrdered xs → AllDifferent xs → IsAscending (keys xs)
ordered-IsAscending [] h d = tt
ordered-IsAscending (o ∷ xs) h d = (above xs h.0 d.0, ordered-IsAscending xs h.1 d.1)
  where
    above :
        (ys : List ObjectInfo)
        → All (λ (p : ObjectInfo). o.key ≤ p.key) ys
        → AllOther o.key ys
        → IsAbove o.key (keys ys)
    above [] h d = tt
    above (p ∷ ys) h d = (ground (arith, h.0, d.0), above ys h.1 d.1)

pub perm_back-All :
    (P : ObjectInfo → Type 0) (xs ys : List ObjectInfo) → Permᴰ xs ys → All P ys → All P xs
perm_back-All P xs ys p = perm-All P ys xs (Permᴰ.symm p)

module _ (sort : List ObjectInfo → List ObjectInfo) (sorts : IsSort sort) where
  pub sorted-IsAscending : (xs : List ObjectInfo) → AllDifferent xs → IsAscending (keys (sort xs))
  sorted-IsAscending xs h =
      let (p, ordered) = sorts xs in
      ordered-IsAscending (sort xs) ordered (perm-AllDifferent xs (sort xs) (Permᴰ.symm p) h)

  pub sorted-stamp :
      (k : ℕ) (xs : List ObjectInfo) → AllDifferent xs → stamp k (sort xs) ≡ stamp k xs
  sorted-stamp k xs h = sym (perm-stamp k xs (sort xs) (Permᴰ.symm (sorts xs).0) h)

-- A key that is not in an ascending list, put behind it.
pub ascending_different : (xs : List ObjectInfo) → IsAscending (keys xs) → AllDifferent xs
ascending_different [] h = tt
ascending_different (o ∷ xs) h = (other xs h.0, ascending_different xs h.1)
  where
    other : (ys : List ObjectInfo) → IsAbove o.key (keys ys) → AllOther o.key ys
    other [] h = tt
    other (p ∷ ys) h = (ground (arith, h.0), other ys h.1)

stamp_none-AllOther : (k : ℕ) (xs : List ObjectInfo) → stamp k xs ≡ none → AllOther k xs
unfolding stamp
stamp_none-AllOther k [] h = tt
stamp_none-AllOther k (o ∷ xs) h = (ground arith, stamp_none-AllOther k xs (ground (arith, h)))

pub snoc_different :
    (o : ObjectInfo) (xs : List ObjectInfo)
    → AllDifferent xs
    → stamp o.key xs ≡ none
    → AllDifferent (xs ++ (o ∷ []))
unfolding stamp
snoc_different o [] d h = (tt, tt)
snoc_different o (p ∷ xs) d h = (
  All-append (λ (q : ObjectInfo). p.key ≢ q.key) xs (o ∷ []) d.0 (ground (arith, h), tt),
  snoc_different o xs d.1 (ground (arith, h)),
)
