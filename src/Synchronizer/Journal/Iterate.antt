-- ===== src/Synchronizer/Journal/Iterate.antt =====
-- StoreJournal::iterateChanged (src/synchronizer.cpp): the walk through the tree, which leaves out
-- what is too old, visits what a filter of the vector keeps.
use libstored.Prelude.{
  ℕ, zero, suc, ◌≡◌, refl, sym, List, [], ◌∷◌, ◌++◌, All, arith, length, Bool-cases, inl, inr,
}
use libstored.Prelude.{if◌then◌else◌, ◌<◌, ◌≤◌, ltb, leb}
use libstored.Synchronizer.Journal.{ObjectInfo, iterate}
use libstored.Synchronizer.Journal.Halves.{halves, halving, halves-middle, IsMiddle}
use libstored.Synchronizer.Journal.ShortSeq.{to_long}
use libstored.Synchronizer.Journal.Find.{IsTree, node-IsTree}

unfoldable pub since_only : ℕ → ℕ → List ObjectInfo → List ObjectInfo
since_only now since [] = []
since_only now since (o ∷ xs) =
    if leb since (to_long now o.seq) then o ∷ since_only now since xs else since_only now since xs

since_only-append :
    (now since : ℕ) (xs ys : List ObjectInfo)
    → since_only now since (xs ++ ys) ≡ since_only now since xs ++ since_only now since ys
unfolding since_only
since_only-append now since [] ys = refl
since_only-append now since (o ∷ xs) ys = ground (arith, since_only-append now since xs ys)

since_only_old :
    (now since top : ℕ) (xs : List ObjectInfo)
    → All (λ (x : ObjectInfo). to_long now x.seq ≤ top) xs
    → top < since
    → since_only now since xs ≡ []
unfolding since_only
since_only_old now since top [] h lt = refl
since_only_old now since top (o ∷ xs) h lt = ground (arith, since_only_old now since top xs)

abbrev Visits : ℕ → ℕ → ℕ → List ObjectInfo → Type 0
Visits now since fuel xs = IsTree fuel now xs → iterate fuel now since xs ≡ since_only now since xs

Visits-none : (now since n : ℕ) → Visits now since n []
unfolding iterate halves since_only
Visits-none now since zero tree = refl
Visits-none now since (suc n) tree = refl

Visits-node :
    (now since fuel : ℕ) (before : List ObjectInfo) (o : ObjectInfo) (behind : List ObjectInfo)
    → IsMiddle before behind
    → Visits now since fuel before
    → Visits now since fuel behind
    → Visits now since (suc fuel) (before ++ (o ∷ behind))
unfolding iterate
Visits-node now since fuel before o behind m left right tree =
    rw (halves-middle before o behind m, iterate)
      (elim (Bool-cases (ltb (to_long now o.highest) since)) [
        | inl h ↦ rw h (sym (since_only_old now since (to_long now o.highest) _ t.0 (ground arith)))
        | inr h ↦
            rw (h, left t.1, right t.2, since_only-append now since before (o ∷ behind)) here_or_not
      ])
  where
    t :
        All (λ (x : ObjectInfo). to_long now x.seq ≤ to_long now o.highest) (before ++ (o ∷ behind))
        × IsTree fuel now before
        × IsTree fuel now behind
    t = node-IsTree fuel now before o behind m tree

    here_or_not :
        since_only now since before
          ++ ((if leb since (to_long now o.seq) then o ∷ [] else []) ++ since_only now since behind)
        ≡ since_only now since before ++ since_only now since (o ∷ behind)
    here_or_not = unfold since_only in ground arith

-- In a tree, with as much fuel as elements, `iterateChanged` visits exactly the objects that are as new as `since`, in the order
-- of the vector.
pub iterate-since_only :
    (now since fuel : ℕ) (xs : List ObjectInfo)
    → length xs ≤ fuel
    → IsTree fuel now xs
    → iterate fuel now since xs ≡ since_only now since xs
iterate-since_only now since fuel xs =
    halving (Visits now since) (Visits-none now since) (Visits-node now since) fuel xs
