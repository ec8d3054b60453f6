-- ===== src/Synchronizer/Journal/Update/Stamps.antt =====
-- StoreJournal::update (src/synchronizer.cpp) records the change of its key, and no other.
use libstored.Prelude.{
  ℕ, zero, suc, ◌≡◌, refl, Bool, true, false, List, [], ◌∷◌, ◌++◌, Option, none, some, inl, inr,
  arith, length,
}
use libstored.Prelude.{◌==◌, if◌then◌else◌, ◌%◌, ◌^◌, ◌≤◌}
use libstored.Synchronizer.Journal.{ObjectInfo, update}
use libstored.Synchronizer.Journal.Halves.{halves, halving, IsMiddle}
use libstored.Synchronizer.Journal.ShortSeq.{to_short}
use libstored.Synchronizer.Journal.Stamp.{keys, IsAscending, stamp, stamp-Cut, Cut, Cut-ascending}
use libstored.Synchronizer.Journal.Update.{raised, hit, ways, update-keys}
use libstored.Synchronizer.Journal.Update.Tree.{parts_short}

abbrev pub is_some {ℓ} : {A : Type ℓ} → Option A → Bool
is_some none = false
is_some (some x) = true

Cut-keys :
    (xs ys xs' ys' : List ObjectInfo) (k : ℕ)
    → keys xs' ≡ keys xs
    → keys ys' ≡ keys ys
    → Cut xs k ys
    → Cut xs' k ys'
Cut-keys xs ys xs' ys' k e f c = record {
  before = rw e c.before;
  below = rw e c.below;
  above = rw f c.above;
  behind = rw f c.behind;
}

module _ (now key len seq : ℕ) where
  -- The new record of the key, if there is one.
  abbrev pub restamp : Option (ℕ × ℕ) → Option (ℕ × ℕ)
  restamp none = none
  restamp (some _) = some (to_short seq, len % 2 ^ 32)

  abbrev Restamps : ℕ → List ObjectInfo → List ObjectInfo × Bool → Type 0
  Restamps k xs r =
      (stamp k r.0 ≡ (if k == key then restamp (stamp k xs) else stamp k xs))
      × (r.1 ≡ is_some (stamp key xs))

  abbrev Stamps : ℕ → ℕ → List ObjectInfo → Type 0
  Stamps k fuel xs =
      length xs ≤ fuel → IsAscending (keys xs) → Restamps k xs (update fuel now key len seq xs)

  Stamps-none : (k n : ℕ) → Stamps k n []
  unfolding update halves stamp
  Stamps-none k zero h s = (ground arith, refl)
  Stamps-none k (suc n) h s = (ground arith, refl)

  Stamps-node :
      (k fuel : ℕ) (before : List ObjectInfo) (o : ObjectInfo) (behind : List ObjectInfo)
      → IsMiddle before behind
      → Stamps k fuel before
      → Stamps k fuel behind
      → Stamps k (suc fuel) (before ++ (o ∷ behind))
  Stamps-node k fuel before o behind m left right h sorted =
      let c = Cut-ascending before o behind sorted in
      let (nb, nr) = parts_short fuel before o behind m h in
      let stored = stamp-Cut k before o behind c in
      let sought = stamp-Cut key before o behind c in
      elim (ways now key len seq fuel before o behind m) [
        | inl (p, e) ↦
            rw (e, sought)
              (ground (arith, p, stored, stamp-Cut k before (hit now key len seq o) behind c))
        | inr (inl (p, e)) ↦
            let cut =
              Cut-keys before behind (update fuel now key len seq before).0 behind o.key
                (update-keys now key len seq fuel before nb) refl c in
            rw (e, sought)
              (ground (
                arith,
                p,
                stored,
                left nb c.before,
                stamp-Cut k (update fuel now key len seq before).0 (raised now key len seq o) behind
                    cut,
              ))
        | inr (inr (p, e)) ↦
            let cut =
              Cut-keys before behind before (update fuel now key len seq behind).0 o.key refl
                (update-keys now key len seq fuel behind nr) c in
            rw (e, sought)
              (ground (
                arith,
                p,
                stored,
                right nr c.behind,
                stamp-Cut k before (raised now key len seq o) (update fuel now key len seq behind).0
                    cut,
              ))
      ]

  -- In a sorted vector, the key's record is the new one afterwards if there was one, and all others
  -- stay; the result says whether there was one.
  pub update-stamp : (k fuel : ℕ) (xs : List ObjectInfo) → length xs ≤ fuel → Stamps k fuel xs
  update-stamp k = halving (Stamps k) (Stamps-none k) (Stamps-node k)
