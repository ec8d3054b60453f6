-- ===== src/Synchronizer/Journal/Regenerate.antt =====
-- StoreJournal::regenerate of a range (src/synchronizer.cpp): only `highest` changes, and the
-- vector is a tree.
use libstored.Prelude.{
  ℕ, zero, suc, ◌≡◌, refl, sym, ap, ◌∙◌, List, [], ◌∷◌, ◌++◌, map, All, All-split, All-append,
  All-map, arith, length,
}
use libstored.Prelude.{◌^◌, ◌<◌, ◌≤◌, max}
use libstored.Synchronizer.Journal.{ObjectInfo, regenerate}
use libstored.Synchronizer.Journal.Halves.{halves, halving, halves-middle, IsMiddle}
use libstored.Synchronizer.Journal.ShortSeq.{
  to_short, to_long, InWindow, IsShort, to_long-InWindow, to_short-IsShort, to_long-to_short,
}
use libstored.Synchronizer.Journal.Stamp.{keys, stamp}
use libstored.Synchronizer.Journal.Find.{IsTree}
use libstored.Synchronizer.Journal.Update.{AllShort, AllUpTo}
use libstored.Synchronizer.Journal.Update.Tree.{make-IsTree, parts_short}

-- The elements without what `regenerate` computes.
abbrev pub bare : List ObjectInfo → List ObjectInfo
bare xs = map (λ (o : ObjectInfo). record o { highest = 0 }) xs

bare-append : (xs ys : List ObjectInfo) → bare (xs ++ ys) ≡ bare xs ++ bare ys
bare-append [] ys = refl
bare-append (o ∷ xs) ys = ap (λ r. record o { highest = 0 } ∷ r) (bare-append xs ys)

pub stamp-bare : (k : ℕ) (xs : List ObjectInfo) → stamp k (bare xs) ≡ stamp k xs
unfolding stamp
stamp-bare k [] = refl
stamp-bare k (o ∷ xs) = ground (arith, stamp-bare k xs)

pub keys-bare : (xs : List ObjectInfo) → keys (bare xs) ≡ keys xs
keys-bare [] = refl
keys-bare (o ∷ xs) = ap (λ r. o.key ∷ r) (keys-bare xs)

pub length-bare : (xs : List ObjectInfo) → length (bare xs) ≡ length xs
length-bare [] = refl
length-bare (o ∷ xs) = ap suc (length-bare xs)

module _ (now : ℕ) where
  abbrev above_all : ℕ → List ObjectInfo → ObjectInfo → List ObjectInfo → ℕ
  above_all fuel before o behind =
      max (to_long now o.seq) (max (regenerate fuel now before).1 (regenerate fuel now behind).1)

  abbrev node : ℕ → List ObjectInfo → ObjectInfo → List ObjectInfo → ObjectInfo
  node fuel before o behind = record o { highest = to_short (above_all fuel before o behind) }

  regenerate-node :
      (fuel : ℕ) (before : List ObjectInfo) (o : ObjectInfo) (behind : List ObjectInfo)
      → IsMiddle before behind
      → regenerate (suc fuel) now (before ++ (o ∷ behind)) ≡ (
        (regenerate fuel now before).0
            ++ (node fuel before o behind ∷ (regenerate fuel now behind).0),
        above_all fuel before o behind,
      )
  unfolding regenerate
  regenerate-node fuel before o behind m = rw (halves-middle before o behind m, regenerate) refl

  abbrev KeepsBare : ℕ → List ObjectInfo → Type 0
  KeepsBare fuel xs = bare (regenerate fuel now xs).0 ≡ bare xs

  bare_none : (n : ℕ) → KeepsBare n []
  unfolding regenerate halves
  bare_none zero = refl
  bare_none (suc n) = refl

  bare_node :
      (fuel : ℕ) (before : List ObjectInfo) (o : ObjectInfo) (behind : List ObjectInfo)
      → IsMiddle before behind
      → KeepsBare fuel before
      → KeepsBare fuel behind
      → KeepsBare (suc fuel) (before ++ (o ∷ behind))
  bare_node fuel before o behind m left right =
      rw
        (
          regenerate-node fuel before o behind m,
          bare-append (regenerate fuel now before).0,
          left,
          right,
        )
        (sym (bare-append before (o ∷ behind)))

  -- The keys, the lengths and the sequence numbers stay.
  pub regenerate-bare : (fuel : ℕ) (xs : List ObjectInfo) → length xs ≤ fuel → KeepsBare fuel xs
  regenerate-bare = halving KeepsBare bare_none bare_node

  pub regenerate-length :
      (fuel : ℕ) (xs : List ObjectInfo)
      → length xs ≤ fuel
      → length (regenerate fuel now xs).0 ≡ length xs
  regenerate-length fuel xs h =
      sym (length-bare (regenerate fuel now xs).0)
      ∙ ap length (regenerate-bare fuel xs h)
      ∙ length-bare xs

  abbrev pub SeqsShort : List ObjectInfo → Type 0
  SeqsShort xs = All (λ (o : ObjectInfo). IsShort now o.seq) xs

  -- What the induction proves.
  abbrev Regenerated : List ObjectInfo × ℕ → Type 0
  Regenerated r = AllShort now r.0 × AllUpTo now r.1 r.0 × (r.1 ≤ now)

  abbrev Makes : ℕ → List ObjectInfo → Type 0
  Makes fuel xs =
      length xs ≤ fuel
      → SeqsShort xs
      → IsTree fuel now (regenerate fuel now xs).0 × Regenerated (regenerate fuel now xs)

  Makes-none : (n : ℕ) → Makes n []
  unfolding regenerate halves
  Makes-none zero h s = (tt, (tt, tt, ground arith))
  Makes-none (suc n) h s = (tt, (tt, tt, ground arith))

  module _ (small : now < 2 ^ 64) where
    Makes-node :
        (fuel : ℕ) (before : List ObjectInfo) (o : ObjectInfo) (behind : List ObjectInfo)
        → IsMiddle before behind
        → Makes fuel before
        → Makes fuel behind
        → Makes (suc fuel) (before ++ (o ∷ behind))
    Makes-node fuel before o behind m left right h short =
        let (sb, (so, sr)) =
          All-split (λ (p : ObjectInfo). IsShort now p.seq) before (o ∷ behind) short in
        let (nb, nr) = parts_short fuel before o behind m h in
        let (tree_b, (short_b, up_b, top_b)) = left nb sb in
        let (tree_r, (short_r, up_r, top_r)) = right nr sr in
        let long = to_long-InWindow now o.seq small so in
        let top = above_all fuel before o behind in
        let window : InWindow now top = omega (arith, long, top_b, top_r) in
        let fits = to_short-IsShort now top window in
        let back : to_long now (to_short top) ≡ top = to_long-to_short now top small window in
        let up : AllUpTo now top (
            (regenerate fuel now before).0
            ++ (node fuel before o behind ∷ (regenerate fuel now behind).0)) =
          All-append (λ (p : ObjectInfo). to_long now p.seq ≤ top) (regenerate fuel now before).0 _
            (All-map (λ p k. omega (arith, k)) _ up_b)
            (omega arith, All-map (λ p k. omega (arith, k)) _ up_r) in
        rw (regenerate-node fuel before o behind m) (
          make-IsTree fuel now (regenerate fuel now before).0 (node fuel before o behind)
              (regenerate fuel now behind).0
              (rw (regenerate-length fuel before nb, regenerate-length fuel behind nr) m)
              (rw back up) tree_b tree_r,
          (
            All-append (λ (p : ObjectInfo). IsShort now p.seq × IsShort now p.highest)
                (regenerate fuel now before).0 _ short_b ((so, fits), short_r),
            up,
            window.0,
          ),
        )

    -- `regenerate` makes a tree of any vector whose sequence numbers have a long form.
    pub regenerate-IsTree :
        (fuel : ℕ) (xs : List ObjectInfo)
        → length xs ≤ fuel
        → SeqsShort xs
        → IsTree fuel now (regenerate fuel now xs).0 × AllShort now (regenerate fuel now xs).0
    regenerate-IsTree fuel xs h s =
        let (tree, (short, _, _)) = halving Makes Makes-none Makes-node fuel xs h h s in
        (tree, short)
