-- ===== src/Synchronizer/StoreJournal/Changed.antt =====
-- StoreJournal::changed and hasChanged (src/synchronizer.cpp): the journal is a map from keys to
-- the moment of their last change.
use libstored.Prelude.{
  ℕ, ◌≡◌, refl, sym, ap, ◌∙◌, Bool, true, false, not, ◌&&◌, ◌||◌, List, [], ◌∷◌, ◌++◌, Option, none,
  some, All-append, All-map, arith, length, Bool-cases, inl, inr, ◌⊎◌,
}
use libstored.Prelude.{◌==◌, if◌then◌else◌, ◌%◌, ◌^◌, leb}
use libstored.Synchronizer.Journal.{ObjectInfo, update}
use libstored.Synchronizer.Journal.ShortSeq.{to_short, IsShort, to_short-IsShort, to_long-to_short}
use libstored.Synchronizer.Journal.Stamp.{stamp, stamp-append, or_else}
use libstored.Synchronizer.Journal.Find.{is_since}
use libstored.Synchronizer.Journal.Update.Stamps.{is_some, restamp, update-stamp}
use libstored.Synchronizer.Journal.Regenerate.{SeqsShort}
use libstored.Synchronizer.Journal.Sort.{IsSort, AllDifferent, ascending_different, snoc_different}
use libstored.Synchronizer.StoreJournal.{StoreJournal, changed, has_changed, regenerate_all}
use libstored.Synchronizer.StoreJournal.Vector.{
  IsVector, IsJournal, has_changed-stamp, now_window, updated, update-IsVector, update_vector-stamp,
  regenerate_all-stamp, regenerate_all-IsVector,
}

same_test : (a b c : Bool) → (a || not b) ≡ true → (a && c) ≡ ((a || b) && c)
same_test true b c h = refl
same_test false true c h = absurd (ground (arith, h))
same_test false false c h = refl

or_else_none : (x : Option (ℕ × ℕ)) → or_else x none ≡ x
or_else_none none = refl
or_else_none (some x) = refl

-- A change of a journal: its vector, where the key is known or is not to be inserted, and where it
-- is inserted.
module _ (sort : List ObjectInfo → List ObjectInfo) (sorts : IsSort sort) (key len : ℕ)
    (j : StoreJournal) (v : IsJournal j) where
  abbrev now : ℕ
  now = j.seq

  abbrev raised : List ObjectInfo
  raised = updated now key len now v.small (now_window now) j.changes v.vector

  abbrev new : ObjectInfo
  new = record { key = key; len = len % 2 ^ 32; seq = to_short now; highest = to_short now }

  raised-IsVector : IsVector now raised
  raised-IsVector = update-IsVector now key len now v.small (now_window now) j.changes v.vector

  abbrev found : Bool
  found = (update (length j.changes) now key len now j.changes).1

  abbrev known : Bool
  known = is_some (stamp key j.changes)

  found-known : found ≡ known
  found-known =
      (update-stamp now key len now key (length j.changes) j.changes (omega arith) (omega arith)
        v.vector.ascending).1

  changed_ways :
      (insert_if_new : Bool)
      → ((known || not insert_if_new) ≡ true
          × (changed sort key len insert_if_new j
              ≡ record j { partial_seq = true; changes = raised }))
        ⊎ ((known ≡ false × insert_if_new ≡ true)
            × (changed sort key len insert_if_new j ≡ record j {
              partial_seq = true;
              changes = regenerate_all sort now (raised ++ (new ∷ []));
            }))
  unfolding changed
  changed_ways true = elim (Bool-cases found) [
    | inl h ↦ inl (ground (arith, h, found-known), rw h refl)
    | inr h ↦ inr ((sym found-known ∙ h, refl), rw h refl)
  ]
  changed_ways false = elim (Bool-cases found) [
    | inl h ↦ inl (ground arith, rw h refl)
    | inr h ↦ inl (ground arith, rw h refl)
  ]

  raised-stamp :
      (k : ℕ)
      → stamp k raised
        ≡ (if k == key then restamp now key len now (stamp k j.changes) else stamp k j.changes)
  raised-stamp = update_vector-stamp now key len now v.small (now_window now) j.changes v.vector

  is_none : (x : Option (ℕ × ℕ)) → is_some x ≡ false → x ≡ none
  is_none none h = refl
  is_none (some x) h = absurd (ground (arith, h))

  since_restamped :
      (since : ℕ) (x : Option (ℕ × ℕ))
      → is_since now since (restamp now key len now x) ≡ is_some x && leb since now
  since_restamped since none = refl
  since_restamped since (some x) =
      ap (λ s. leb since s) (to_long-to_short now now v.small (now_window now))

  unknown_different : known ≡ false → AllDifferent (raised ++ (new ∷ []))
  unknown_different h =
      snoc_different new raised (ascending_different raised raised-IsVector.ascending) absent
    where
      absent : stamp key raised ≡ none
      absent = raised-stamp key ∙ rw (is_none (stamp key j.changes) h) (ground arith)

  inserted_seqs : SeqsShort now (raised ++ (new ∷ []))
  inserted_seqs =
      All-append (λ (o : ObjectInfo). IsShort now o.seq) raised (new ∷ [])
        (All-map (λ o h. h.0) raised raised-IsVector.short)
        (to_short-IsShort now now (now_window now), tt)

  -- The journal stays a sorted vector that is a tree.
  pub changed-IsJournal : (insert_if_new : Bool) → IsJournal (changed sort key len insert_if_new j)
  changed-IsJournal insert_if_new = elim (changed_ways insert_if_new) [
    | inl (_, e) ↦ rw e (record { small = v.small; vector = raised-IsVector })
    | inr ((h, _), e) ↦ rw e (record {
      small = v.small;
      vector =
          regenerate_all-IsVector sort sorts now v.small (raised ++ (new ∷ []))
            (unknown_different h) inserted_seqs;
    })
  ]

  looked_up :
      (insert_if_new : Bool) (k since : ℕ)
      → (known || not insert_if_new) ≡ true
      → is_since now since
          (if k == key then restamp now key len now (stamp k j.changes) else stamp k j.changes)
        ≡ (if k == key
            then (is_some (stamp key j.changes) || insert_if_new) && leb since j.seq
            else is_since now since (stamp k j.changes))
  looked_up insert_if_new k since h = elim (Bool-cases (k == key)) [
    | inl e ↦
        let same : k ≡ key = ground arith in
        rw (e, same, since_restamped since (stamp key j.changes))
          (same_test (is_some (stamp key j.changes)) insert_if_new (leb since now) h)
    | inr e ↦ rw e refl
  ]

  inserted :
      (k since : ℕ)
      → known ≡ false
      → is_since now since (stamp k (raised ++ (new ∷ []))) ≡ (
          if k == key
          then (is_some (stamp key j.changes) || true) && leb since j.seq
          else is_since now since (stamp k j.changes))
  unfolding stamp
  inserted k since h =
      ap (is_since now since) (stamp-append k raised (new ∷ [])) ∙ elim (Bool-cases (k == key)) [
        | inl e ↦
            let same : k ≡ key = ground arith in
            let here : (key == key) ≡ true = ground arith in
            rw (raised-stamp k, e, same, is_none (stamp key j.changes) h, here)
              (ap (λ s. leb since s) (to_long-to_short now now v.small (now_window now)))
        | inr e ↦
            let other : (key == k) ≡ false = ground arith in
            rw (raised-stamp k, e, other, or_else_none (stamp k j.changes)) refl
      ]

  -- In a valid journal, with a sort that permutes and orders by the keys: after a change,
  -- `hasChanged` is true of the key for every moment up to the present, if the key was known or was
  -- to be inserted; of the other keys it says the same as before.
  pub has_changed-changed :
      (insert_if_new : Bool) (k since : ℕ)
      → has_changed k since (changed sort key len insert_if_new j) ≡ (
          if k == key
          then (is_some (stamp key j.changes) || insert_if_new) && leb since j.seq
          else has_changed k since j)
  has_changed-changed insert_if_new k since = elim (changed_ways insert_if_new) [
    | inl (h, e) ↦
        rw (e, has_changed-stamp k since j v.vector)
          (has_changed-stamp k since (record j { partial_seq = true; changes = raised })
              raised-IsVector
            ∙ ap (is_since now since) (raised-stamp k)
            ∙ looked_up insert_if_new k since h)
    | inr ((h, i), e) ↦
        rw (e, i, has_changed-stamp k since j v.vector)
          (has_changed-stamp k since
              (record j {
                partial_seq = true;
                changes = regenerate_all sort now (raised ++ (new ∷ []));
              })
              (regenerate_all-IsVector sort sorts now v.small (raised ++ (new ∷ []))
                (unknown_different h) inserted_seqs)
            ∙ ap (is_since now since) (
                regenerate_all-stamp sort sorts now v.small (raised ++ (new ∷ []))
                  (unknown_different h) k)
            ∙ inserted k since h)
  ]
