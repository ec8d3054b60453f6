-- ===== src/Synchronizer/Tests/Sorting.antt =====
-- An insertion sort in the place of std::sort, for the runs of StoreJournal (src/synchronizer.cpp).
use libstored.Prelude.{refl, List, [], ◌∷◌, All, All-map, arith, Bool-cases, inl, inr}
use libstored.Prelude.{if◌then◌else◌, ◌≤◌, leb}
use mathlib.Core.List.{Permᴰ}
use mathlib.Core.List.Permᴰ
use libstored.Synchronizer.Journal.{ObjectInfo}
use libstored.Synchronizer.Journal.Sort.{IsSort, IsOrdered}

abbrev insert : ObjectInfo → List ObjectInfo → List ObjectInfo
insert o [] = o ∷ []
insert o (p ∷ xs) = let rest = insert o xs in if leb o.key p.key then o ∷ p ∷ xs else p ∷ rest

abbrev pub insertion_sort : List ObjectInfo → List ObjectInfo
insertion_sort [] = []
insertion_sort (o ∷ xs) = insert o (insertion_sort xs)

insert_perm : (o : ObjectInfo) (xs : List ObjectInfo) → Permᴰ (insert o xs) (o ∷ xs)
insert_perm o [] = Permᴰ.refl (o ∷ [])
insert_perm o (p ∷ xs) = elim (Bool-cases (leb o.key p.key)) [
  | inl h ↦ rw h (Permᴰ.refl (o ∷ p ∷ xs))
  | inr h ↦ rw h (Permᴰ.trans (Permᴰ.cons refl (insert_perm o xs)) (Permᴰ.swap refl refl))
]

insert-All :
    (P : ObjectInfo → Type 0) (o : ObjectInfo) (xs : List ObjectInfo)
    → P o
    → All P xs
    → All P (insert o xs)
insert-All P o [] h k = (h, tt)
insert-All P o (p ∷ xs) h k = elim (Bool-cases (leb o.key p.key)) [
  | inl e ↦ rw e (h, k)
  | inr e ↦ rw e (k.0, insert-All P o xs h k.1)
]

insert-IsOrdered : (o : ObjectInfo) (xs : List ObjectInfo) → IsOrdered xs → IsOrdered (insert o xs)
insert-IsOrdered o [] h = (tt, tt)
insert-IsOrdered o (p ∷ xs) h = elim (Bool-cases (leb o.key p.key)) [
  | inl e ↦
      let first : o.key ≤ p.key = ground arith in
      rw e ((first, All-map (λ q k. omega (arith, k, first)) xs h.0), h)
  | inr e ↦ rw e (
    insert-All (λ (q : ObjectInfo). p.key ≤ q.key) o xs (ground arith) h.0,
    insert-IsOrdered o xs h.1,
  )
]

sorted_perm : (xs : List ObjectInfo) → Permᴰ (insertion_sort xs) xs
sorted_perm [] = Permᴰ.refl []
sorted_perm (o ∷ xs) =
    Permᴰ.trans (insert_perm o (insertion_sort xs)) (Permᴰ.cons refl (sorted_perm xs))

sorted-IsOrdered : (xs : List ObjectInfo) → IsOrdered (insertion_sort xs)
sorted-IsOrdered [] = tt
sorted-IsOrdered (o ∷ xs) = insert-IsOrdered o (insertion_sort xs) (sorted-IsOrdered xs)

pub insertion_sort-IsSort : IsSort insertion_sort
insertion_sort-IsSort xs = (sorted_perm xs, sorted-IsOrdered xs)
