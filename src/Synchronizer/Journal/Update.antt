-- ===== src/Synchronizer/Journal/Update.antt =====
-- StoreJournal::update (src/synchronizer.cpp): the record of one key changes, and the tree stays a
-- tree.
pub mod Tree
pub mod Stamps
use libstored.Prelude.{
  ℕ, zero, suc, ◌≡◌, refl, sym, ap, ap₂, ◌∙◌, Bool, true, false, List, [], ◌∷◌, ◌++◌, map, Option,
  none, some, ◌⊎◌, All, All-split, All-append, arith, length, length-append, Bool-cases, inl, inr,
}
use libstored.Prelude.{◌==◌, if◌then◌else◌, ◌+◌, ◌%◌, ◌^◌, ◌<◌, ◌≤◌, ltb, leb, max}
use libstored.Synchronizer.Journal.{ObjectInfo, update}
use libstored.Synchronizer.Journal.Halves.{halves, halving, halves-middle, IsMiddle}
use libstored.Synchronizer.Journal.ShortSeq.{
  short_seq_window, to_short, to_long, InWindow, IsShort, to_long-InWindow, to_short-IsShort,
  to_long-to_short,
}
use libstored.Synchronizer.Journal.Stamp.{
  keys, keys-append, IsAscending, stamp, stamp-Cut, Cut, Cut-ascending,
}
use libstored.Synchronizer.Journal.Find.{IsTree, node-IsTree}

abbrev pub AllShort : ℕ → List ObjectInfo → Type 0
AllShort now xs = All (λ (o : ObjectInfo). IsShort now o.seq × IsShort now o.highest) xs

abbrev pub AllUpTo : ℕ → ℕ → List ObjectInfo → Type 0
AllUpTo now top xs = All (λ (o : ObjectInfo). to_long now o.seq ≤ top) xs

pub length-keys : (xs : List ObjectInfo) → length (keys xs) ≡ length xs
length-keys [] = refl
length-keys (o ∷ xs) = ap suc (length-keys xs)

module _ (now key len seq : ℕ) where
  abbrev pub raised : ObjectInfo → ObjectInfo
  raised o = record o { highest = to_short (max (to_long now o.highest) seq) }

  abbrev pub hit : ObjectInfo → ObjectInfo
  hit o = record (raised o) { seq = to_short seq; len = len % 2 ^ 32 }

  -- The three ways through a range that is not empty.
  abbrev pub Ways : ℕ → List ObjectInfo → ObjectInfo → List ObjectInfo → Type 0
  Ways fuel before o behind =
      ((o.key ≡ key)
        × (update (suc fuel) now key len seq (before ++ (o ∷ behind))
            ≡ (before ++ (hit o ∷ behind), true)))
      ⊎ (((key < o.key)
            × (update (suc fuel) now key len seq (before ++ (o ∷ behind)) ≡ (
              (update fuel now key len seq before).0 ++ (raised o ∷ behind),
              (update fuel now key len seq before).1,
            )))
          ⊎ ((o.key < key)
              × (update (suc fuel) now key len seq (before ++ (o ∷ behind)) ≡ (
                before ++ (raised o ∷ (update fuel now key len seq behind).0),
                (update fuel now key len seq behind).1,
              ))))

  module _ (fuel : ℕ) (before : List ObjectInfo) (o : ObjectInfo) (behind : List ObjectInfo)
      (m : IsMiddle before behind) where
    update-hit :
        (o.key == key) ≡ true
        → update (suc fuel) now key len seq (before ++ (o ∷ behind))
          ≡ (before ++ (hit o ∷ behind), true)
    unfolding update
    update-hit e = rw (halves-middle before o behind m, update) (rw e refl)

    update_before :
        (o.key == key) ≡ false
        → ltb key o.key ≡ true
        → update (suc fuel) now key len seq (before ++ (o ∷ behind)) ≡ (
          (update fuel now key len seq before).0 ++ (raised o ∷ behind),
          (update fuel now key len seq before).1,
        )
    unfolding update
    update_before e f = rw (halves-middle before o behind m, update) (rw (e, f) refl)

    update_behind :
        (o.key == key) ≡ false
        → ltb key o.key ≡ false
        → update (suc fuel) now key len seq (before ++ (o ∷ behind)) ≡ (
          before ++ (raised o ∷ (update fuel now key len seq behind).0),
          (update fuel now key len seq behind).1,
        )
    unfolding update
    update_behind e f = rw (halves-middle before o behind m, update) (rw (e, f) refl)

    pub ways : Ways fuel before o behind
    ways = elim (Bool-cases (o.key == key)) [
      | inl e ↦ inl (ground arith, update-hit e)
      | inr e ↦ elim (Bool-cases (ltb key o.key)) [
        | inl f ↦ inr (inl (ground arith, update_before e f))
        | inr f ↦ inr (inr (ground arith, update_behind e f))
      ]
    ]

  -- The keys stay where they are.
  abbrev KeepsKeys : ℕ → List ObjectInfo → Type 0
  KeepsKeys fuel xs = keys (update fuel now key len seq xs).0 ≡ keys xs

  keys_cut :
      (xs ys : List ObjectInfo) (o p : ObjectInfo) (xs' ys' : List ObjectInfo)
      → keys xs' ≡ keys xs
      → p.key ≡ o.key
      → keys ys' ≡ keys ys
      → keys (xs' ++ (p ∷ ys')) ≡ keys (xs ++ (o ∷ ys))
  keys_cut xs ys o p xs' ys' e f g =
      keys-append xs' (p ∷ ys') ∙ rw (e, f, g) (sym (keys-append xs (o ∷ ys)))

  keys_none : (n : ℕ) → KeepsKeys n []
  unfolding update halves
  keys_none zero = refl
  keys_none (suc n) = refl

  keys_node :
      (fuel : ℕ) (before : List ObjectInfo) (o : ObjectInfo) (behind : List ObjectInfo)
      → IsMiddle before behind
      → KeepsKeys fuel before
      → KeepsKeys fuel behind
      → KeepsKeys (suc fuel) (before ++ (o ∷ behind))
  keys_node fuel before o behind m left right = elim (ways fuel before o behind m) [
    | inl (h, e) ↦ rw e (keys_cut before behind o (hit o) before behind refl refl refl)
    | inr (inl (h, e)) ↦ rw e (
        keys_cut before behind o (raised o) (update fuel now key len seq before).0 behind left refl
          refl)
    | inr (inr (h, e)) ↦ rw e (
        keys_cut before behind o (raised o) before (update fuel now key len seq behind).0 refl refl
          right)
  ]

  pub update-keys : (fuel : ℕ) (xs : List ObjectInfo) → length xs ≤ fuel → KeepsKeys fuel xs
  update-keys = halving KeepsKeys keys_none keys_node

  pub update-length :
      (fuel : ℕ) (xs : List ObjectInfo)
      → length xs ≤ fuel
      → length (update fuel now key len seq xs).0 ≡ length xs
  update-length fuel xs h =
      sym (length-keys (update fuel now key len seq xs).0)
      ∙ ap length (update-keys fuel xs h)
      ∙ length-keys xs

  -- What every element has, and keeps when it is raised or hit, every element of the result has.
  module _ (P : ObjectInfo → Type 0) (raise : (o : ObjectInfo) → P o → P (raised o))
      (change : (o : ObjectInfo) → P o → P (hit o)) where
    abbrev KeepsAll : ℕ → List ObjectInfo → Type 0
    KeepsAll fuel xs = All P xs → All P (update fuel now key len seq xs).0

    all_none : (n : ℕ) → KeepsAll n []
    unfolding update halves
    all_none zero h = h
    all_none (suc n) h = h

    all_cut :
        (xs ys : List ObjectInfo) (o : ObjectInfo)
        → All P xs
        → P o
        → All P ys
        → All P (xs ++ (o ∷ ys))
    all_cut xs ys o h k l = All-append P xs (o ∷ ys) h (k, l)

    all_node :
        (fuel : ℕ) (before : List ObjectInfo) (o : ObjectInfo) (behind : List ObjectInfo)
        → IsMiddle before behind
        → KeepsAll fuel before
        → KeepsAll fuel behind
        → KeepsAll (suc fuel) (before ++ (o ∷ behind))
    all_node fuel before o behind m left right h =
        let (hb, hr) = All-split P before (o ∷ behind) h in
        elim (ways fuel before o behind m) [
          | inl (_, e) ↦ rw e (all_cut before behind (hit o) hb (change o hr.0) hr.1)
          | inr (inl (_, e)) ↦ rw e (
              all_cut (update fuel now key len seq before).0 behind (raised o) (left hb)
                (raise o hr.0) hr.1)
          | inr (inr (_, e)) ↦ rw e (
              all_cut before (update fuel now key len seq behind).0 (raised o) hb (raise o hr.0)
                (right hr.1))
        ]

    pub update-All : (fuel : ℕ) (xs : List ObjectInfo) → length xs ≤ fuel → KeepsAll fuel xs
    update-All = halving KeepsAll all_none all_node

  module _ (small : now < 2 ^ 64) (window : InWindow now seq) where
    highest_window :
        (o : ObjectInfo) → IsShort now o.highest → InWindow now (max (to_long now o.highest) seq)
    highest_window o h = ground (arith, to_long-InWindow now o.highest small h)

    pub update-AllShort :
        (fuel : ℕ) (xs : List ObjectInfo)
        → length xs ≤ fuel
        → AllShort now xs
        → AllShort now (update fuel now key len seq xs).0
    update-AllShort =
        update-All (λ (o : ObjectInfo). IsShort now o.seq × IsShort now o.highest)
          (λ o h. (h.0, to_short-IsShort now _ (highest_window o h.1)))
          (λ o h. (to_short-IsShort now seq window, to_short-IsShort now _ (highest_window o h.1)))

    pub update-AllUpTo :
        (top fuel : ℕ) (xs : List ObjectInfo)
        → seq ≤ top
        → length xs ≤ fuel
        → AllUpTo now top xs
        → AllUpTo now top (update fuel now key len seq xs).0
    update-AllUpTo top fuel xs h =
        update-All (λ (o : ObjectInfo). to_long now o.seq ≤ top) (λ o k. k)
          (λ o k. omega (arith, h, to_long-to_short now seq small window)) fuel xs
