-- ===== src/Synchronizer/Journal/Update/Tree.antt =====
-- StoreJournal::update (src/synchronizer.cpp) keeps the tree.
use libstored.Prelude.{
  ℕ, zero, suc, ◌≡◌, List, [], ◌∷◌, ◌++◌, All-split, All-map, inl, inr, arith, length,
  length-append,
}
use libstored.Prelude.{◌^◌, ◌<◌, ◌≤◌, max}
use libstored.Synchronizer.Journal.{ObjectInfo, update}
use libstored.Synchronizer.Journal.Halves.{halves, halving, halves-middle, IsMiddle}
use libstored.Synchronizer.Journal.ShortSeq.{to_long, InWindow, IsShort, to_long-to_short}
use libstored.Synchronizer.Journal.Find.{IsTree, node-IsTree}
use libstored.Synchronizer.Journal.Update.{
  AllShort, AllUpTo, raised, hit, ways, update-length, update-AllUpTo, highest_window,
}

pub make-IsTree :
    (fuel now : ℕ) (before : List ObjectInfo) (o : ObjectInfo) (behind : List ObjectInfo)
    → IsMiddle before behind
    → AllUpTo now (to_long now o.highest) (before ++ (o ∷ behind))
    → IsTree fuel now before
    → IsTree fuel now behind
    → IsTree (suc fuel) now (before ++ (o ∷ behind))
make-IsTree fuel now before o behind m h l r =
    rw (halves-middle before o behind m, IsTree) (h, l, r)

-- The parts of a range are no longer than the fuel that is left.
pub parts_short :
    (fuel : ℕ) (before : List ObjectInfo) (o : ObjectInfo) (behind : List ObjectInfo)
    → IsMiddle before behind
    → length (before ++ (o ∷ behind)) ≤ suc fuel
    → (length before ≤ fuel) × (length behind ≤ fuel)
parts_short fuel before o behind m h = omega (arith, m, h, length-append before (o ∷ behind))

module _ (now key len seq : ℕ) (small : now < 2 ^ 64) (window : InWindow now seq) where
  abbrev KeepsTree : ℕ → List ObjectInfo → Type 0
  KeepsTree fuel xs =
      length xs ≤ fuel
      → AllShort now xs
      → IsTree fuel now xs
      → IsTree fuel now (update fuel now key len seq xs).0

  tree_none : (n : ℕ) → KeepsTree n []
  unfolding update halves
  tree_none zero h s t = t
  tree_none (suc n) h s t = t

  -- The highest number of the pivot covers the new range.
  covered :
      (fuel : ℕ) (o : ObjectInfo) (xs : List ObjectInfo)
      → length xs ≤ fuel
      → IsShort now o.highest
      → AllUpTo now (to_long now o.highest) xs
      → AllUpTo now
          (to_long now (raised now key len seq o).highest)
          (update fuel now key len seq xs).0
  covered fuel o xs h short below = rw top (
      update-AllUpTo now key len seq small window (max (to_long now o.highest) seq) fuel xs
        (omega arith) h (All-map (λ x k. omega (arith, k)) xs below))
    where
      top : to_long now (raised now key len seq o).highest ≡ max (to_long now o.highest) seq
      top = to_long-to_short now _ small (highest_window now key len seq small window o short)

  tree_node :
      (fuel : ℕ) (before : List ObjectInfo) (o : ObjectInfo) (behind : List ObjectInfo)
      → IsMiddle before behind
      → KeepsTree fuel before
      → KeepsTree fuel behind
      → KeepsTree (suc fuel) (before ++ (o ∷ behind))
  tree_node fuel before o behind m left right h short tree =
      let (hb, hr) = All-split _ before (o ∷ behind) short in
      let (top, tb, tr) = node-IsTree fuel now before o behind m tree in
      let (nb, nr) = parts_short fuel before o behind m h in
      let cover = covered (suc fuel) o (before ++ (o ∷ behind)) h (hr.0.1) top in
      elim (ways now key len seq fuel before o behind m) [
        | inl (_, e) ↦
            rw e
              (make-IsTree fuel now before (hit now key len seq o) behind m (rw e at cover) tb tr)
        | inr (inl (_, e)) ↦ rw e (
            make-IsTree fuel now (update fuel now key len seq before).0 (raised now key len seq o)
              behind (rw (update-length now key len seq fuel before nb) m) (rw e at cover)
              (left nb hb tb) tr)
        | inr (inr (_, e)) ↦ rw e (
            make-IsTree fuel now before (raised now key len seq o)
              (update fuel now key len seq behind).0
              (rw (update-length now key len seq fuel behind nr) m) (rw e at cover) tb
              (right nr hr.1 tr))
      ]

  -- A record of a number in the window keeps the tree.
  pub update-IsTree : (fuel : ℕ) (xs : List ObjectInfo) → length xs ≤ fuel → KeepsTree fuel xs
  update-IsTree = halving KeepsTree tree_none tree_node
