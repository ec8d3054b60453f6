-- ===== src/Synchronizer/Journal.antt =====
-- StoreJournal (src/synchronizer.cpp): the changes of a store, in a vector that is sorted by key
-- and read as a binary tree. A range of the vector is the list of its elements; its pivot splits
-- it into the range before, the element, and the range behind.
pub mod Halves
pub mod ShortSeq
pub mod Stamp
pub mod Find
pub mod Iterate
pub mod Update
pub mod Regenerate
pub mod Sort
use libstored.Prelude.{
  ℕ, zero, suc, Bool, true, false, not, ◌&&◌, ◌||◌, List, [], ◌∷◌, ◌++◌, Option, none, some,
}
use libstored.Prelude.{
  ◌==◌, if◌then◌else◌, ◌+◌, ◌-◌, ◌*◌, ◌/◌, ◌%◌, ◌^◌, ltb, leb, min, max, length, take, drop,
  is_empty, sub_size,
}
use Halves.{halves}
use ShortSeq.{short_seq_window, to_short, to_long}

abbrev pub seq_lower_margin : ℕ
seq_lower_margin = short_seq_window / 4

abbrev pub seq_clean_threshold : ℕ
seq_clean_threshold = seq_lower_margin * 2

pub record ObjectInfo : Type 0 where
  pub key : ℕ
  pub len : ℕ
  pub seq : ℕ
  pub highest : ℕ

-- `update` of a range: `now` is `m_seq`. The new range, and whether the key was found. The first
-- argument is fuel.
unfoldable pub update : ℕ → ℕ → ℕ → ℕ → ℕ → List ObjectInfo → List ObjectInfo × Bool
update zero now key len seq xs = (xs, false)
update (suc fuel) now key len seq xs = elim (halves xs) [
  | none ↦ (xs, false)
  | some (before, o, behind) ↦
      let raised = record o { highest = to_short (max (to_long now o.highest) seq) } in
      let (before', found_before) = update fuel now key len seq before in
      let (behind', found_behind) = update fuel now key len seq behind in
      if o.key == key
      then (before ++ (record raised { seq = to_short seq; len = len % 2 ^ 32 } ∷ behind), true)
      else if ltb key o.key
      then (before' ++ (raised ∷ behind), found_before)
      else (before ++ (raised ∷ behind'), found_behind)
]

-- `regenerate` of a range: the new range, and the highest sequence number in it.
unfoldable pub regenerate : ℕ → ℕ → List ObjectInfo → List ObjectInfo × ℕ
regenerate zero now xs = (xs, 0)
regenerate (suc fuel) now xs = elim (halves xs) [
  | none ↦ (xs, 0)
  | some (before, o, behind) ↦
      let (before', highest_before) = regenerate fuel now before in
      let (behind', highest_behind) = regenerate fuel now behind in
      let highest = max (to_long now o.seq) (max highest_before highest_behind) in
      (before' ++ (record o { highest = to_short highest } ∷ behind'), highest)
]

-- The loop of `hasChanged`.
unfoldable pub search_changed : ℕ → ℕ → ℕ → ℕ → List ObjectInfo → Bool
search_changed zero now key since xs = false
search_changed (suc fuel) now key since xs = elim (halves xs) [
  | none ↦ false
  | some (before, o, behind) ↦
      let in_before = search_changed fuel now key since before in
      let in_behind = search_changed fuel now key since behind in
      if ltb (to_long now o.highest) since
      then false
      else if o.key == key
      then leb since (to_long now o.seq)
      else if ltb key o.key
      then in_before
      else in_behind
]

-- `iterateChanged` of a range: the keys that the callback gets.
unfoldable pub iterate : ℕ → ℕ → ℕ → List ObjectInfo → List ObjectInfo
iterate zero now since xs = []
iterate (suc fuel) now since xs = elim (halves xs) [
  | none ↦ []
  | some (before, o, behind) ↦
      let from_before = iterate fuel now since before in
      let from_behind = iterate fuel now since behind in
      if ltb (to_long now o.highest) since
      then []
      else from_before ++ ((if leb since (to_long now o.seq) then o ∷ [] else []) ++ from_behind)
]
