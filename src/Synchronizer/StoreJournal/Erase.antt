-- ===== src/Synchronizer/StoreJournal/Erase.antt =====
-- StoreJournal::clean (src/synchronizer.cpp) with a threshold: it erases what is older, and nothing
-- else.
mod Moved
use libstored.Prelude.{
  ℕ, zero, suc, ◌≡◌, refl, sym, ap, ◌∙◌, Bool, true, false, List, [], ◌∷◌, ◌++◌, Option, none, some,
  ◌⊎◌, All-map, arith, length, length-append, length-take, take, get_or, take-append,
  get_or-append_right, append-nil, Bool-cases, inl, inr,
}
use libstored.Prelude.{◌==◌, ◌+◌, ◌-◌, ◌<◌, ◌≤◌, ltb}
use mathlib.Core.Path.{subst}
use mathlib.Core.List.{Permᴰ}
use mathlib.Core.List.Permᴰ
use libstored.Synchronizer.Journal.{ObjectInfo}
use libstored.Synchronizer.Journal.Halves.{Cut-at}
use libstored.Synchronizer.Journal.ShortSeq.{to_long, IsShort}
use libstored.Synchronizer.Journal.Stamp.{stamp}
use libstored.Synchronizer.Journal.Find.{is_since}
use libstored.Synchronizer.Journal.Regenerate.{SeqsShort}
use libstored.Synchronizer.Journal.Sort.{
  IsSort, AllDifferent, AllOther, perm-stamp, perm-All, perm-AllDifferent, ascending_different,
}
use libstored.Synchronizer.StoreJournal.{
  StoreJournal, erase_old, clean, regenerate_all, has_changed,
}
use libstored.Synchronizer.StoreJournal.Vector.{
  IsJournal, has_changed-stamp, regenerate_all-stamp, regenerate_all-IsVector,
}
use libstored.Synchronizer.StoreJournal.Clean.{moved, last_cut, erase_step}
use libstored.Synchronizer.StoreJournal.Erase.Moved.{moved_perm, length-moved}

module _ (now oldest : ℕ) where
  -- What is true of the records after a removal, of what is too old.
  abbrev is_older : Option (ℕ × ℕ) → Bool
  is_older none = false
  is_older (some (seq, len)) = ltb (to_long now seq) oldest

  abbrev Erases : ℕ → List ObjectInfo → List ObjectInfo → Type 0
  Erases k xs ys =
      (stamp k ys ≡ stamp k xs) ⊎ ((is_older (stamp k xs) ≡ true) × (stamp k ys ≡ none))

  none_other : (k : ℕ) (xs : List ObjectInfo) → AllOther k xs → stamp k xs ≡ none
  unfolding stamp
  none_other k [] h = refl
  none_other k (o ∷ xs) h = ground (arith, h.0, none_other k xs h.1)

  -- One removal.
  Erases-moved :
      (k : ℕ) (ys : List ObjectInfo) (o : ObjectInfo) (rest : List ObjectInfo)
      → AllDifferent (ys ++ (o ∷ rest))
      → ltb (to_long now o.seq) oldest ≡ true
      → AllDifferent (moved now oldest ys o rest)
        × Erases k (ys ++ (o ∷ rest)) (moved now oldest ys o rest)
  unfolding stamp
  Erases-moved k ys o rest d old =
      let p = moved_perm now oldest ys o rest in
      let different = perm-AllDifferent _ _ (Permᴰ.symm p) d in
      let same = perm-stamp k _ _ p different in
      (
        different.1,
        elim (Bool-cases (o.key == k)) [
          | inl e ↦
              let here : o.key ≡ k = ground arith in
              let found : some (o.seq, o.len) ≡ stamp k (ys ++ (o ∷ rest)) = rw e at same in
              inr (
                rw (← found) old,
                none_other k _
                    (subst (λ q. AllOther q (moved now oldest ys o rest)) here different.0),
              )
          | inr e ↦ inl (rw e at same)
        ],
      )

  -- All removals.
  Erases-trans :
      (k : ℕ) (xs ys zs : List ObjectInfo) → Erases k xs ys → Erases k ys zs → Erases k xs zs
  Erases-trans k xs ys zs (inl e) (inl f) = inl (f ∙ e)
  Erases-trans k xs ys zs (inl e) (inr (old, f)) = inr (rw e at old, f)
  Erases-trans k xs ys zs (inr (old, e)) (inl f) = inr (old, f ∙ e)
  Erases-trans k xs ys zs (inr (old, e)) (inr (_, f)) = inr (old, f)

  record Erased (xs ys : List ObjectInfo) : Type 0 where
    pub different : AllDifferent ys
    pub seqs : SeqsShort now ys
    pub erases : (k : ℕ) → Erases k xs ys

  abbrev Runs : ℕ → Type 0
  Runs n =
      (xs : List ObjectInfo)
      → n ≤ length xs
      → AllDifferent xs
      → SeqsShort now xs
      → Erased xs (erase_old now oldest n xs)

  moved_seqs :
      (ys : List ObjectInfo) (o : ObjectInfo) (rest : List ObjectInfo)
      → SeqsShort now (ys ++ (o ∷ rest))
      → SeqsShort now (moved now oldest ys o rest)
  moved_seqs ys o rest s =
      (perm-All (λ (p : ObjectInfo). IsShort now p.seq) _ _
        (Permᴰ.symm (moved_perm now oldest ys o rest)) s).1

  erase_more :
      (n : ℕ) (ys : List ObjectInfo) (o : ObjectInfo) (rest : List ObjectInfo)
      → Runs n
      → length ys ≡ n
      → AllDifferent (ys ++ (o ∷ rest))
      → SeqsShort now (ys ++ (o ∷ rest))
      → Erased (ys ++ (o ∷ rest)) (erase_old now oldest (suc n) (ys ++ (o ∷ rest)))
  erase_more n ys o rest runs e d s =
      rw (erase_step now oldest n ys o rest e) (elim (Bool-cases (ltb (to_long now o.seq) oldest)) [
        | inl old ↦
            let (d', _) = Erases-moved o.key ys o rest d old in
            let r =
              runs (moved now oldest ys o rest)
                (omega (
                  arith,
                  e,
                  length-append ys (
                      take (length rest)
                        (get_or (ys ++ (o ∷ rest)) (length (ys ++ (o ∷ rest)) - 1) o ∷ rest)),
                ))
                d' (moved_seqs ys o rest s) in
            rw old (record {
              different = r.different;
              seqs = r.seqs;
              erases = λ k.
                  Erases-trans k _ (moved now oldest ys o rest) _ (Erases-moved k ys o rest d old).1
                    (r.erases k);
            })
        | inr new ↦
            rw new (runs (ys ++ (o ∷ rest)) (omega (arith, e, length-append ys (o ∷ rest))) d s)
      ])

  erase_old-Erased : (n : ℕ) → Runs n
  unfolding erase_old
  erase_old-Erased zero xs h d s = record { different = d; seqs = s; erases = λ k. inl refl }
  erase_old-Erased (suc n) xs h d s =
      let (ys, o, rest, e, k) = Cut-at n xs (omega (arith, h)) in
      subst (λ t. Erased t (erase_old now oldest (suc n) t)) (sym e)
        (erase_more n ys o rest (erase_old-Erased n) k (subst AllDifferent e d)
          (subst (SeqsShort now) e s))

  -- What a removal means for a lookup.
  since_erased :
      (k since : ℕ) (xs ys : List ObjectInfo)
      → oldest ≤ since
      → Erases k xs ys
      → is_since now since (stamp k ys) ≡ is_since now since (stamp k xs)
  since_erased k since xs ys h (inl e) = ap (is_since now since) e
  since_erased k since xs ys h (inr (old, e)) = rw e (sym (not_since (stamp k xs) old))
    where
      not_since : (x : Option (ℕ × ℕ)) → is_older x ≡ true → is_since now since x ≡ false
      not_since none old = refl
      not_since (some (seq, len)) old = ground (arith, old, h)

  -- Where the length stays, nothing was removed.
  abbrev Counts : ℕ → Type 0
  Counts n =
      (xs : List ObjectInfo)
      → n ≤ length xs
      → (length (erase_old now oldest n xs) ≤ length xs)
        × (length (erase_old now oldest n xs) ≡ length xs → erase_old now oldest n xs ≡ xs)

  count_more :
      (n : ℕ) (ys : List ObjectInfo) (o : ObjectInfo) (rest : List ObjectInfo)
      → Counts n
      → length ys ≡ n
      → (length (erase_old now oldest (suc n) (ys ++ (o ∷ rest))) ≤ length (ys ++ (o ∷ rest)))
        × (length (erase_old now oldest (suc n) (ys ++ (o ∷ rest))) ≡ length (ys ++ (o ∷ rest))
            → erase_old now oldest (suc n) (ys ++ (o ∷ rest)) ≡ ys ++ (o ∷ rest))
  count_more n ys o rest counts e =
      rw (erase_step now oldest n ys o rest e) (elim (Bool-cases (ltb (to_long now o.seq) oldest)) [
        | inl old ↦
            let fewer = length-moved now oldest ys o rest in
            let (less, _) = counts (moved now oldest ys o rest) (omega (arith, e, fewer)) in
            rw old (
              omega (arith, less, fewer, length-append ys (o ∷ rest)),
              λ same. absurd (omega (arith, same, less, fewer, length-append ys (o ∷ rest))),
            )
        | inr new ↦
            rw new (counts (ys ++ (o ∷ rest)) (omega (arith, e, length-append ys (o ∷ rest))))
      ])

  erase_old-length : (n : ℕ) → Counts n
  unfolding erase_old
  erase_old-length zero xs h = (omega arith, λ same. refl)
  erase_old-length (suc n) xs h =
      let (ys, o, rest, e, k) = Cut-at n xs (omega (arith, h)) in
      rw e (count_more n ys o rest (erase_old-length n) k)

module _ (sort : List ObjectInfo → List ObjectInfo) (sorts : IsSort sort) (oldest : ℕ)
    (given : 0 < oldest) (j : StoreJournal) (v : IsJournal j) where
  done : Erased j.seq oldest j.changes (erase_old j.seq oldest (length j.changes) j.changes)
  done =
      erase_old-Erased j.seq oldest (length j.changes) j.changes (omega arith)
        (ascending_different j.changes v.vector.ascending)
        (All-map (λ o h. h.0) j.changes v.vector.short)

  abbrev rest : List ObjectInfo
  rest = erase_old j.seq oldest (length j.changes) j.changes

  clean_ways :
      ((clean sort oldest j).changes ≡ j.changes)
      ⊎ ((clean sort oldest j).changes ≡ regenerate_all sort j.seq rest)
  unfolding clean
  clean_ways =
      let explicit : (oldest == 0) ≡ false = ground arith in
      elim (Bool-cases (length rest == length j.changes)) [
        | inl h ↦ inl (
            rw (explicit, h)
              ((erase_old-length j.seq oldest (length j.changes) j.changes (omega arith)).1
                (ground (arith, h))))
        | inr h ↦ inr (rw (explicit, h) refl)
      ]

  clean-seq : (clean sort oldest j).seq ≡ j.seq
  unfolding clean
  clean-seq = refl

  -- With a threshold, `clean` leaves a valid journal.
  pub clean-IsJournal : IsJournal (clean sort oldest j)
  unfolding clean
  clean-IsJournal = record {
    small = v.small;
    vector = elim clean_ways [
      | inl e ↦ rw e v.vector
      | inr e ↦
          rw e (regenerate_all-IsVector sort sorts j.seq v.small rest done.different done.seqs)
    ];
  }

  -- In a valid journal, with a sort that permutes and orders by the keys: after `clean` with a
  -- threshold other than 0, `hasChanged` says the same as before for any moment from the threshold
  -- on.
  pub has_changed-clean :
      (k since : ℕ)
      → oldest ≤ since
      → has_changed k since (clean sort oldest j) ≡ has_changed k since j
  unfolding clean
  has_changed-clean k since h =
      has_changed-stamp k since (clean sort oldest j) clean-IsJournal.vector
      ∙ (elim clean_ways [
        | inl e ↦ rw e refl
        | inr e ↦
            rw (e, regenerate_all-stamp sort sorts j.seq v.small rest done.different k)
              (since_erased j.seq oldest k since j.changes rest h (done.erases k))
      ])
      ∙ sym (has_changed-stamp k since j v.vector)
