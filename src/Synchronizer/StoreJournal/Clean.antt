-- ===== src/Synchronizer/StoreJournal/Clean.antt =====
-- StoreJournal::clean (src/synchronizer.cpp).
use libstored.Prelude.{
  ℕ, zero, suc, ◌≡◌, refl, sym, ap, ◌∙◌, Bool, true, false, List, [], ◌∷◌, ◌++◌, All, All-split,
  All-map, arith, drop-append, take-append, length, take, get_or, append-nil,
}
use libstored.Prelude.{◌==◌, if◌then◌else◌, ◌-◌, ◌<◌, ltb, sub_size}
use libstored.Synchronizer.Journal.{ObjectInfo, seq_clean_threshold, regenerate}
use libstored.Synchronizer.Journal.ShortSeq.{to_long, to_long-InWindow}
use libstored.Synchronizer.Journal.Sort.{IsSort, perm_back-All}
use libstored.Synchronizer.StoreJournal.{StoreJournal, erase_old, clean, regenerate_all}
use libstored.Synchronizer.StoreJournal.Vector.{IsJournal}

module _ (now oldest : ℕ) where
  -- The elements after a removal at the end of `ys`: the last one takes the place.
  abbrev pub moved : List ObjectInfo → ObjectInfo → List ObjectInfo → List ObjectInfo
  moved ys o rest =
      ys ++ take (length rest) (get_or (ys ++ (o ∷ rest)) (length (ys ++ (o ∷ rest)) - 1) o ∷ rest)

  abbrev pub left : List ObjectInfo → ObjectInfo → List ObjectInfo → List ObjectInfo
  left ys o rest = if ltb (to_long now o.seq) oldest then moved ys o rest else ys ++ (o ∷ rest)

  erase_at :
      (ys : List ObjectInfo) (o : ObjectInfo) (rest : List ObjectInfo)
      → erase_old now oldest (suc (length ys)) (ys ++ (o ∷ rest))
        ≡ erase_old now oldest (length ys) (left ys o rest)
  unfolding erase_old
  erase_at ys o rest = rw (drop-append ys (o ∷ rest), take-append ys (o ∷ rest), erase_old) refl

  pub erase_step :
      (n : ℕ) (ys : List ObjectInfo) (o : ObjectInfo) (rest : List ObjectInfo)
      → length ys ≡ n
      → erase_old now oldest (suc n) (ys ++ (o ∷ rest)) ≡ erase_old now oldest n (left ys o rest)
  erase_step n ys o rest e =
      ap (λ k. erase_old now oldest (suc k) (ys ++ (o ∷ rest))) (sym e)
      ∙ erase_at ys o rest
      ∙ ap (λ k. erase_old now oldest k (left ys o rest)) e

  -- A list and its last element.
  pub last_cut :
      (n : ℕ) (xs : List ObjectInfo)
      → length xs ≡ suc n
      → (ys : List ObjectInfo) × (o : ObjectInfo) × (xs ≡ ys ++ (o ∷ [])) × (length ys ≡ n)
  last_cut n [] e = absurd (omega arith)
  last_cut zero (x ∷ []) e = ([], x, refl, refl)
  last_cut zero (x ∷ y ∷ xs) e = absurd (omega arith)
  last_cut (suc n) (x ∷ xs) e =
      let (ys, o, f, g) = last_cut n xs (omega arith) in (x ∷ ys, o, ap (λ r. x ∷ r) f, ap suc g)

  -- Where all elements are too old, none is left.
  erase_all :
      (n : ℕ) (xs : List ObjectInfo)
      → length xs ≡ n
      → All (λ (o : ObjectInfo). to_long now o.seq < oldest) xs
      → erase_old now oldest n xs ≡ []
  unfolding erase_old
  erase_all zero [] e h = refl
  erase_all zero (o ∷ xs) e h = absurd (omega (arith, e))
  erase_all (suc n) xs e h =
      let (ys, o, f, g) = last_cut n xs e in
      let (old_ys, old_o) =
        All-split (λ (p : ObjectInfo). to_long now p.seq < oldest) ys (o ∷ []) (rw f at h) in
      let old : ltb (to_long now o.seq) oldest ≡ true = ground (arith, old_o) in
      ap (erase_old now oldest (suc n)) f
      ∙ erase_step n ys o [] g
      ∙ rw (old, append-nil ys) (erase_all n ys g old_ys)

empty_kept :
    (sort : List ObjectInfo → List ObjectInfo)
    → IsSort sort
    → (now : ℕ) → regenerate_all sort now [] ≡ []
unfolding regenerate_all regenerate
empty_kept sort sorts now = go (sort []) (perm_back-All (λ o. ⊥) (sort []) [] (sorts []).0 tt)
  where
    go :
        (ys : List ObjectInfo)
        → All (λ (o : ObjectInfo). ⊥) ys
        → (regenerate (length ys) now ys).0 ≡ []
    go [] h = refl
    go (o ∷ ys) h = absurd h.0

module _ (j : StoreJournal) (v : IsJournal j) (young : j.seq < seq_clean_threshold) where
  abbrev from : ℕ
  from = sub_size j.seq seq_clean_threshold

  abbrev nothing : List ObjectInfo
  nothing = erase_old j.seq from (length j.changes) j.changes

  all_old : All (λ (o : ObjectInfo). to_long j.seq o.seq < from) j.changes
  unfolding sub_size
  all_old =
      All-map (λ o h. omega (arith, to_long-InWindow j.seq o.seq v.small h.0, young)) j.changes
        v.vector.short

  none_left : nothing ≡ []
  none_left = erase_all j.seq from (length j.changes) j.changes refl all_old

  cleaned :
      (sort : List ObjectInfo → List ObjectInfo)
      → IsSort sort
      → (b : Bool) → (if b then nothing else regenerate_all sort j.seq nothing) ≡ []
  cleaned sort sorts true = none_left
  cleaned sort sorts false = ap (regenerate_all sort j.seq) none_left ∙ empty_kept sort sorts j.seq

  -- `clean` without an argument, in a valid journal that is younger than the threshold, forgets all
  -- changes, with any sort that permutes: the subtraction of the threshold wraps around.
  pub clean_young :
      (sort : List ObjectInfo → List ObjectInfo) → IsSort sort → (clean sort 0 j).changes ≡ []
  unfolding clean
  clean_young sort sorts = cleaned sort sorts (length nothing == length j.changes)
