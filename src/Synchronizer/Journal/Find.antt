-- ===== src/Synchronizer/Journal/Find.antt =====
-- StoreJournal::hasChanged (src/synchronizer.cpp): the search through the tree finds what a linear
-- one would.
use libstored.Prelude.{
  ℕ, zero, suc, ◌≡◌, refl, sym, Bool, false, List, [], ◌∷◌, ◌++◌, Option, none, some, All, arith,
  length, Bool-cases, inl, inr,
}
use libstored.Prelude.{◌<◌, ◌≤◌, ltb, leb}
use libstored.Synchronizer.Journal.{ObjectInfo, search_changed}
use libstored.Synchronizer.Journal.Halves.{halves, halving, halves-middle, IsMiddle}
use libstored.Synchronizer.Journal.ShortSeq.{to_long}
use libstored.Synchronizer.Journal.Stamp.{keys, IsAscending, stamp, Cut, Cut-ascending, stamp-Cut}

-- No element of a range is newer than the highest of its pivot, and so on in both parts.
abbrev pub IsTree : ℕ → ℕ → List ObjectInfo → Type 0
IsTree zero now xs = Unit {0}
IsTree (suc fuel) now xs = elim (halves xs) [
  | none ↦ Unit {0}
  | some (before, o, behind) ↦
      All (λ (x : ObjectInfo). to_long now x.seq ≤ to_long now o.highest) xs
      × IsTree fuel now before
      × IsTree fuel now behind
]

pub node-IsTree :
    (fuel now : ℕ) (before : List ObjectInfo) (o : ObjectInfo) (behind : List ObjectInfo)
    → IsMiddle before behind
    → IsTree (suc fuel) now (before ++ (o ∷ behind))
    → All (λ (x : ObjectInfo). to_long now x.seq ≤ to_long now o.highest) (before ++ (o ∷ behind))
      × IsTree fuel now before
      × IsTree fuel now behind
node-IsTree fuel now before o behind m h = rw (halves-middle before o behind m, IsTree) at h

-- Whether a record is as new as `since`.
abbrev pub is_since : ℕ → ℕ → Option (ℕ × ℕ) → Bool
is_since now since none = false
is_since now since (some (seq, len)) = leb since (to_long now seq)

older :
    (now since top k : ℕ) (xs : List ObjectInfo)
    → All (λ (x : ObjectInfo). to_long now x.seq ≤ top) xs
    → top < since
    → is_since now since (stamp k xs) ≡ false
unfolding stamp
older now since top k [] h lt = refl
older now since top k (o ∷ xs) h lt = ground (arith, older now since top k xs)

-- The property of a range that the induction proves.
abbrev Finds : ℕ → ℕ → ℕ → ℕ → List ObjectInfo → Type 0
Finds now key since fuel xs =
    IsAscending (keys xs)
    → IsTree fuel now xs
    → search_changed fuel now key since xs ≡ is_since now since (stamp key xs)

Finds-node :
    (now key since fuel : ℕ) (before : List ObjectInfo) (o : ObjectInfo) (behind : List ObjectInfo)
    → IsMiddle before behind
    → Finds now key since fuel before
    → Finds now key since fuel behind
    → Finds now key since (suc fuel) (before ++ (o ∷ behind))
unfolding search_changed
Finds-node now key since fuel before o behind m left right sorted tree =
    rw (halves-middle before o behind m, search_changed)
      (elim (Bool-cases (ltb (to_long now o.highest) since)) [
        | inl h ↦ rw h (sym (older now since (to_long now o.highest) key _ (t.0) (ground arith)))
        | inr h ↦
            rw (h, stamp-Cut key before o behind c)
              (ground (arith, left c.before t.1, right c.behind t.2))
      ])
  where
    c : Cut before o.key behind
    c = Cut-ascending before o behind sorted

    t :
        All (λ (x : ObjectInfo). to_long now x.seq ≤ to_long now o.highest) (before ++ (o ∷ behind))
        × IsTree fuel now before
        × IsTree fuel now behind
    t = node-IsTree fuel now before o behind m tree

Finds-none : (now key since n : ℕ) → Finds now key since n []
unfolding search_changed halves stamp
Finds-none now key since zero sorted tree = refl
Finds-none now key since (suc n) sorted tree = refl

-- In a sorted tree the search finds whether the key has a record that is as new as `since`.
pub search_changed-stamp :
    (now key since fuel : ℕ) (xs : List ObjectInfo)
    → length xs ≤ fuel
    → IsAscending (keys xs)
    → IsTree fuel now xs
    → search_changed fuel now key since xs ≡ is_since now since (stamp key xs)
search_changed-stamp now key since fuel xs =
    halving (Finds now key since) (Finds-none now key since) (Finds-node now key since) fuel xs
