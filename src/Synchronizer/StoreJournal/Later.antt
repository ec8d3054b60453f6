-- ===== src/Synchronizer/StoreJournal/Later.antt =====
-- The vector of StoreJournal (src/synchronizer.cpp) when time goes on: it means the same while the
-- window holds its numbers.
use libstored.Prelude.{
  ℕ, zero, suc, ◌≡◌, List, [], ◌∷◌, ◌++◌, All, All-split, All-append, All-map, arith, length,
}
use libstored.Prelude.{◌+◌, ◌^◌, ◌<◌, ◌≤◌}
use libstored.Synchronizer.Journal.{ObjectInfo}
use libstored.Synchronizer.Journal.Halves.{halves, halving, IsMiddle}
use libstored.Synchronizer.Journal.ShortSeq.{short_seq_window, to_long, to_long-later}
use libstored.Synchronizer.Journal.Find.{IsTree, node-IsTree}
use libstored.Synchronizer.Journal.Update.{AllShort, AllUpTo}
use libstored.Synchronizer.Journal.Update.Tree.{make-IsTree}
use libstored.Synchronizer.StoreJournal.Vector.{IsVector}

-- In a tree no element is newer than its own highest.
abbrev AllBelowOwn : ℕ → List ObjectInfo → Type 0
AllBelowOwn now xs = All (λ (o : ObjectInfo). to_long now o.seq ≤ to_long now o.highest) xs

below_node :
    (now fuel : ℕ) (before : List ObjectInfo) (o : ObjectInfo) (behind : List ObjectInfo)
    → IsMiddle before behind
    → (IsTree fuel now before → AllBelowOwn now before)
    → (IsTree fuel now behind → AllBelowOwn now behind)
    → IsTree (suc fuel) now (before ++ (o ∷ behind))
    → AllBelowOwn now (before ++ (o ∷ behind))
below_node now fuel before o behind m left right tree =
    let (top, tb, tr) = node-IsTree fuel now before o behind m tree in
    let (_, here) =
      All-split (λ (x : ObjectInfo). to_long now x.seq ≤ to_long now o.highest) before (o ∷ behind)
        top in
    All-append (λ (x : ObjectInfo). to_long now x.seq ≤ to_long now x.highest) before (o ∷ behind)
      (left tb) (here.0, right tr)

below_own :
    (now fuel : ℕ) (xs : List ObjectInfo)
    → length xs ≤ fuel
    → IsTree fuel now xs
    → AllBelowOwn now xs
below_own now =
    halving (λ fuel xs. IsTree fuel now xs → AllBelowOwn now xs) (λ n t. tt) (below_node now)

module _ (now later : ℕ) where
  -- The short numbers of an element mean the same at both times.
  abbrev Same : ObjectInfo → Type 0
  Same o =
      (to_long later o.seq ≡ to_long now o.seq) × (to_long later o.highest ≡ to_long now o.highest)

  abbrev Stays : ℕ → List ObjectInfo → Type 0
  Stays fuel xs = All Same xs → IsTree fuel now xs → IsTree fuel later xs

  Stays-none : (n : ℕ) → Stays n []
  unfolding halves
  Stays-none zero s t = tt
  Stays-none (suc n) s t = tt

  up_to_later :
      (top top' : ℕ) (xs : List ObjectInfo)
      → top' ≡ top
      → All Same xs
      → AllUpTo now top xs
      → AllUpTo later top' xs
  up_to_later top top' [] e s h = tt
  up_to_later top top' (o ∷ xs) e s h = (rw (s.0.0, e) h.0, up_to_later top top' xs e s.1 h.1)

  Stays-node :
      (fuel : ℕ) (before : List ObjectInfo) (o : ObjectInfo) (behind : List ObjectInfo)
      → IsMiddle before behind
      → Stays fuel before
      → Stays fuel behind
      → Stays (suc fuel) (before ++ (o ∷ behind))
  Stays-node fuel before o behind m left right s tree =
      let (top, tb, tr) = node-IsTree fuel now before o behind m tree in
      let (sb, (so, sr)) = All-split Same before (o ∷ behind) s in
      make-IsTree fuel later before o behind m
        (up_to_later (to_long now o.highest) (to_long later o.highest) (before ++ (o ∷ behind)) so.1
          s top)
        (left sb tb) (right sr tr)

  -- Numbers that the later window still holds.
  abbrev pub AllHeld : List ObjectInfo → Type 0
  AllHeld xs = All (λ (o : ObjectInfo). later < to_long now o.seq + short_seq_window) xs

  module _ (order : now ≤ later) (small : later < 2 ^ 64) where
    long_forms :
        (xs : List ObjectInfo) → AllShort now xs → AllBelowOwn now xs → AllHeld xs → All Same xs
    long_forms [] a b h = tt
    long_forms (o ∷ xs) a b h = (
      (
        to_long-later now later o.seq order small a.0.0 h.0,
        to_long-later now later o.highest order small a.0.1 (omega (arith, b, h)),
      ),
      long_forms xs a.1 b.1 h.1,
    )

    short_later : (xs : List ObjectInfo) → AllShort now xs → AllShort later xs
    short_later xs = All-map (λ o h. omega (arith, h, order)) xs

    module _ (xs : List ObjectInfo) (v : IsVector now xs) (held : AllHeld xs) where
      all-Same : All Same xs
      all-Same = long_forms xs v.short (below_own now (length xs) xs (omega arith) v.tree) held

      pub later-IsVector : IsVector later xs
      later-IsVector = record {
        short = short_later xs v.short;
        ascending = v.ascending;
        tree = halving Stays Stays-none Stays-node (length xs) xs (omega arith) all-Same v.tree;
      }

      pub later_seqs : All (λ (o : ObjectInfo). to_long later o.seq ≡ to_long now o.seq) xs
      later_seqs = All-map (λ o h. h.0) xs all-Same
