-- ===== src/Synchronizer/StoreJournal/Bump.antt =====
-- The loop of StoreJournal::bumpSeq (src/synchronizer.cpp): what is too old is shifted in time, and
-- nothing else changes.
use libstored.Prelude.{
  ℕ, zero, suc, ◌≡◌, refl, sym, ap, ◌∙◌, Bool, true, false, List, [], ◌∷◌, ◌++◌, Option, none, some,
  All, All-drop, arith, length, take, drop, take-append-drop, Bool-cases, inl, inr, ◌⊎◌,
}
use libstored.Prelude.{
  ◌==◌, if◌then◌else◌, ◌+◌, ◌-◌, ◌%◌, ◌^◌, ◌<◌, ◌≤◌, ltb, min, sub_size, sub_size-le,
}
use libstored.Synchronizer.Journal.{ObjectInfo, update}
use libstored.Synchronizer.Journal.ShortSeq.{
  to_short, to_long, InWindow, IsShort, to_long-to_short, to_long-InWindow,
}
use libstored.Synchronizer.Journal.Stamp.{keys, stamp, stamp-Cut, Cut-ascending}
use libstored.Synchronizer.Journal.Update.{update-keys}
use libstored.Synchronizer.Journal.Update.Stamps.{restamp}
use libstored.Synchronizer.StoreJournal.{safe_range, raise_old}
use libstored.Synchronizer.StoreJournal.Vector.{IsVector, update-IsVector, update_vector-stamp}

module _ (now lower : ℕ) where
  -- What one round makes of the vector and of `seqLower`.
  abbrev pub round : ObjectInfo → List ObjectInfo → ℕ → List ObjectInfo × ℕ
  round o xs m =
      if ltb safe_range (sub_size now (to_long now o.seq))
      then ((update (length xs) now o.key o.len lower xs).0, lower)
      else (xs, min m (to_long now o.seq))

  pub round_empty :
      (n i m : ℕ) (xs : List ObjectInfo)
      → drop i xs ≡ []
      → raise_old now lower (suc n) i xs m ≡ (xs, m)
  unfolding raise_old
  round_empty n i m xs e = rw (e, raise_old) refl

  pub round_some :
      (n i m : ℕ) (xs rest : List ObjectInfo) (o : ObjectInfo)
      → drop i xs ≡ o ∷ rest
      → raise_old now lower (suc n) i xs m
        ≡ raise_old now lower n (suc i) (round o xs m).0 (round o xs m).1
  unfolding raise_old
  round_some n i m xs rest o e = rw (e, raise_old) refl

  pub drop_cases :
      (i : ℕ) (xs : List ObjectInfo)
      → (drop i xs ≡ []) ⊎ ((o : ObjectInfo) × (rest : List ObjectInfo) × (drop i xs ≡ o ∷ rest))
  drop_cases zero [] = inl refl
  drop_cases zero (o ∷ xs) = inr (o, xs, refl)
  drop_cases (suc i) [] = inl refl
  drop_cases (suc i) (o ∷ xs) = drop_cases i xs

  -- A record that is too old.
  abbrev pub is_old : Option (ℕ × ℕ) → Bool
  is_old none = false
  is_old (some (seq, len)) = ltb safe_range (now - to_long now seq)

  -- The record of a key, when it is shifted.
  abbrev pub shifted : Option (ℕ × ℕ) → Option (ℕ × ℕ)
  shifted none = none
  shifted (some (seq, len)) = some (to_short lower, len % 2 ^ 32)

  module _ (small : now < 2 ^ 64) (window : InWindow now lower)
      (fresh : now ≤ lower + safe_range) where
    -- The element at the position is on record.
    stamp_at :
        (i : ℕ) (xs rest : List ObjectInfo) (o : ObjectInfo)
        → IsVector now xs
        → drop i xs ≡ o ∷ rest
        → stamp o.key xs ≡ some (o.seq, o.len)
    stamp_at i xs rest o v e =
        ap (stamp o.key) cut
        ∙ stamp-Cut o.key (take i xs) o rest
            (Cut-ascending (take i xs) o rest (rw cut at v.ascending))
        ∙ ground arith
      where
        cut : xs ≡ take i xs ++ (o ∷ rest)
        cut = sym (take-append-drop i xs) ∙ ap (λ r. take i xs ++ r) e

    shifted_fresh : (x : Option (ℕ × ℕ)) → is_old (shifted x) ≡ false
    shifted_fresh none = refl
    shifted_fresh (some (seq, len)) = rw (to_long-to_short now lower small window) (ground arith)

    -- A record stays, or it was too old and is shifted.
    abbrev pub Shifts : ℕ → List ObjectInfo → List ObjectInfo → Type 0
    Shifts k xs ys =
        (stamp k ys ≡ stamp k xs)
        ⊎ ((is_old (stamp k xs) ≡ true) × (stamp k ys ≡ shifted (stamp k xs)))

    Shifts-trans :
        (k : ℕ) (xs ys zs : List ObjectInfo) → Shifts k xs ys → Shifts k ys zs → Shifts k xs zs
    Shifts-trans k xs ys zs (inl e) (inl f) = inl (f ∙ e)
    Shifts-trans k xs ys zs (inl e) (inr (old, f)) = inr (rw e at old, f ∙ ap shifted e)
    Shifts-trans k xs ys zs (inr (old, e)) (inl f) = inr (old, f ∙ e)
    Shifts-trans k xs ys zs (inr (old, e)) (inr (old', f)) =
        absurd (ground (arith, rw e at old', shifted_fresh (stamp k xs)))

    fresh_stays :
        (k : ℕ) (xs ys : List ObjectInfo)
        → Shifts k xs ys
        → is_old (stamp k xs) ≡ false
        → is_old (stamp k ys) ≡ false
    fresh_stays k xs ys (inl e) h = rw e h
    fresh_stays k xs ys (inr (old, e)) h = absurd (ground (arith, old, h))

    -- One round, at an element of the vector.
    module _ (i m : ℕ) (xs rest : List ObjectInfo) (o : ObjectInfo) (v : IsVector now xs)
        (at_i : drop i xs ≡ o ∷ rest) where
      record Round (r : List ObjectInfo × ℕ) : Type 0 where
        vector : IsVector now r.0
        same_keys : keys r.0 ≡ keys xs
        shifts : (k : ℕ) → Shifts k xs r.0
        here : is_old (stamp o.key r.0) ≡ false

      on_record : stamp o.key xs ≡ some (o.seq, o.len)
      on_record = stamp_at i xs rest o v at_i

      age : sub_size now (to_long now o.seq) ≡ now - to_long now o.seq
      age = sub_size-le now (to_long now o.seq) (to_long-InWindow now o.seq small short.0.0).0 small
        where
          short : All (λ (p : ObjectInfo). IsShort now p.seq × IsShort now p.highest) (o ∷ rest)
          short = rw at_i at (
              All-drop (λ (p : ObjectInfo). IsShort now p.seq × IsShort now p.highest) i xs v.short)

      -- The element is too old, and is updated.
      raised : List ObjectInfo
      raised = (update (length xs) now o.key o.len lower xs).0

      abbrev old : Bool
      old = ltb safe_range (now - to_long now o.seq)

      raised-stamp :
          (k : ℕ)
          → stamp k raised
            ≡ (if k == o.key then restamp now o.key o.len lower (stamp k xs) else stamp k xs)
      unfolding raised
      raised-stamp = update_vector-stamp now o.key o.len lower small window xs v

      raised-Shifts : old ≡ true → (k : ℕ) → Shifts k xs raised
      raised-Shifts h k = elim (Bool-cases (k == o.key)) [
        | inl e ↦
            let same : k ≡ o.key = ground arith in
            inr (rw (same, on_record) h, raised-stamp k ∙ rw (e, same, on_record) refl)
        | inr e ↦ inl (raised-stamp k ∙ rw e refl)
      ]

      raised_here : is_old (stamp o.key raised) ≡ false
      raised_here =
          let here : (o.key == o.key) ≡ true = ground arith in
          ap is_old {y = shifted (some (o.seq, o.len))}
            (raised-stamp o.key ∙ rw (here, on_record) refl)
          ∙ shifted_fresh (some (o.seq, o.len))

      do_round : Round (round o xs m)
      unfolding raised
      do_round = elim (Bool-cases (ltb safe_range (sub_size now (to_long now o.seq)))) [
        | inl h ↦ rw h (record {
          vector = update-IsVector now o.key o.len lower small window xs v;
          same_keys = update-keys now o.key o.len lower (length xs) xs (omega arith);
          shifts = raised-Shifts (ap (ltb safe_range) (sym age) ∙ h);
          here = raised_here;
        })
        | inr h ↦ rw h (record {
          vector = v;
          same_keys = refl;
          shifts = λ k. inl refl;
          here = ap is_old on_record ∙ ap (ltb safe_range) (sym age) ∙ h;
        })
      ]

    drop-keys : (i : ℕ) (xs : List ObjectInfo) → drop i (keys xs) ≡ keys (drop i xs)
    drop-keys zero xs = refl
    drop-keys (suc i) [] = refl
    drop-keys (suc i) (o ∷ xs) = drop-keys i xs

    drop_more :
        (i : ℕ) (xs rest : List ObjectInfo) (o : ObjectInfo)
        → drop i xs ≡ o ∷ rest
        → drop (suc i) xs ≡ rest
    drop_more zero [] rest o e = absurd (ground (arith, e))
    drop_more zero (x ∷ xs) rest o e = ap (drop 1) e
    drop_more (suc i) [] rest o e = absurd (ground (arith, e))
    drop_more (suc i) (x ∷ xs) rest o e = drop_more i xs rest o e

    pub record Done (n i : ℕ) (xs ys : List ObjectInfo) : Type 0 where
      pub vector : IsVector now ys
      pub same_keys : keys ys ≡ keys xs
      pub shifts : (k : ℕ) → Shifts k xs ys
      pub none_old : All (λ (k : ℕ). is_old (stamp k ys) ≡ false) (take n (drop i (keys xs)))

    keys_behind :
        (i : ℕ) (xs rest : List ObjectInfo) (o : ObjectInfo)
        → drop i xs ≡ o ∷ rest
        → (drop i (keys xs) ≡ o.key ∷ keys rest) × (drop (suc i) (keys xs) ≡ keys rest)
    keys_behind i xs rest o e =
        (drop-keys i xs ∙ ap keys e, drop-keys (suc i) xs ∙ ap keys (drop_more i xs rest o e))

    -- All rounds.
    pub raise_old-Done :
        (n i m : ℕ) (xs : List ObjectInfo)
        → IsVector now xs
        → Done n i xs (raise_old now lower n i xs m).0
    unfolding raise_old
    raise_old-Done zero i m xs v = record {
      vector = v;
      same_keys = refl;
      shifts = λ k. inl refl;
      none_old = tt;
    }
    raise_old-Done (suc n) i m xs v = elim (drop_cases i xs) [
      | inl e ↦ rw (round_empty n i m xs e) (record {
        vector = v;
        same_keys = refl;
        shifts = λ k. inl refl;
        none_old = rw (drop-keys i xs, e) tt;
      })
      | inr (o, rest, e) ↦
          let now_done = do_round i m xs rest o v e in
          let later_done =
            raise_old-Done n (suc i) (round o xs m).1 (round o xs m).0 now_done.vector in
          let (here, behind) = keys_behind i xs rest o e in
          rw (round_some n i m xs rest o e) (record {
            vector = later_done.vector;
            same_keys = later_done.same_keys ∙ now_done.same_keys;
            shifts =
                λ k. Shifts-trans k xs (round o xs m).0 _ (now_done.shifts k) (later_done.shifts k);
            none_old = rw here (
              fresh_stays o.key (round o xs m).0 _ (later_done.shifts o.key) now_done.here,
              rw (now_done.same_keys, behind) at later_done.none_old,
            );
          })
    ]
