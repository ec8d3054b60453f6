-- ===== src/Synchronizer/StoreJournal/Window.antt =====
-- StoreJournal::bumpSeq (src/synchronizer.cpp): no change is lost when time goes on.
use libstored.Prelude.{
  ℕ, ◌≡◌, refl, sym, ◌∙◌, ap, Bool, true, false, not, ◌&&◌, List, [], ◌∷◌, Option, none, some, All,
  arith, length, Bool-cases, inl, inr, ◌⊎◌,
}
use libstored.Prelude.{◌==◌, ◌+◌, ◌-◌, ◌*◌, ◌^◌, ◌<◌, ◌≤◌, ltb, leb, sub_size}
use libstored.Synchronizer.Journal.{ObjectInfo, seq_lower_margin}
use libstored.Synchronizer.Journal.ShortSeq.{to_long, InWindow, to_long-to_short}
use libstored.Synchronizer.Journal.Stamp.{stamp}
use libstored.Synchronizer.Journal.Find.{is_since}
use libstored.Synchronizer.StoreJournal.{
  StoreJournal, safe_range, raise_old, shift_window, bump_seq, has_changed,
}
use libstored.Synchronizer.StoreJournal.Vector.{IsVector, IsJournal, has_changed-stamp}
use libstored.Synchronizer.StoreJournal.Later.{AllHeld, later-IsVector, later_seqs}
use libstored.Synchronizer.StoreJournal.Bump.{is_old, shifted, Shifts, Done, raise_old-Done}

-- The same lookup at a later time.
since_later :
    (now later k since : ℕ) (xs : List ObjectInfo)
    → All (λ (o : ObjectInfo). to_long later o.seq ≡ to_long now o.seq) xs
    → is_since later since (stamp k xs) ≡ is_since now since (stamp k xs)
unfolding stamp
since_later now later k since [] h = refl
since_later now later k since (o ∷ xs) h = elim (Bool-cases (o.key == k)) [
  | inl e ↦ rw e (ap (leb since) h.0)
  | inr e ↦ rw e (since_later now later k since xs h.1)
]

-- What a shift means for a lookup.
module _ (now lower : ℕ) (small : now < 2 ^ 64) (window : InWindow now lower)
    (fresh : now ≤ lower + safe_range) where
  since_shifted :
      (k since : ℕ) (xs ys : List ObjectInfo)
      → Shifts now lower small window fresh k xs ys
      → ((is_since now since (stamp k xs) ≡ true → is_since now since (stamp k ys) ≡ true)
          × (lower < since → is_since now since (stamp k ys) ≡ is_since now since (stamp k xs)))
  since_shifted k since xs ys (inl e) = rw e (λ h. h, λ h. refl)
  since_shifted k since xs ys (inr (old, e)) = rw e (shifted_record (stamp k xs) old)
    where
      shifted_record :
          (x : Option (ℕ × ℕ))
          → is_old now lower x ≡ true
          → ((is_since now since x ≡ true → is_since now since (shifted now lower x) ≡ true)
              × (lower < since → is_since now since (shifted now lower x) ≡ is_since now since x))
      shifted_record none old = absurd (ground (arith, old))
      shifted_record (some (seq, len)) old =
          rw (to_long-to_short now lower small window) (ground (arith, old))

module _ (j : StoreJournal) (v : IsJournal j) (more : j.seq + 1 < 2 ^ 64)
    (behind : j.seq_lower ≤ j.seq) (held : AllHeld j.seq (j.seq + 1) j.changes) where
  abbrev pub next : ℕ
  next = j.seq + 1

  abbrev pub bumped : StoreJournal
  bumped = record j { partial_seq = false; seq = next }

  -- What an old record is shifted to.
  abbrev pub floor : ℕ
  floor = next - 2 * seq_lower_margin

  next_changes : IsVector next j.changes
  next_changes = later-IsVector j.seq next (omega arith) more j.changes v.vector held

  abbrev pub shift_to : ℕ → StoreJournal
  shift_to lower = record bumped {
    seq_lower = (raise_old next lower (length j.changes) 0 j.changes next).1;
    changes = (raise_old next lower (length j.changes) 0 j.changes next).0;
  }

  pub shift_cases :
      ((next ≤ j.seq_lower + safe_range) × (shift_window bumped ≡ bumped))
      ⊎ ((j.seq_lower + safe_range < next) × (shift_window bumped ≡ shift_to floor))
  unfolding shift_window
  shift_cases = elim (Bool-cases (ltb safe_range (sub_size next j.seq_lower))) [
    | inl h ↦
        let passed : j.seq_lower + safe_range < next = unfold sub_size in ground arith in
        inr (passed, rw h (ap shift_to (unfold sub_size in omega (arith, passed, more))))
    | inr h ↦ inl (unfold sub_size in ground arith, rw h refl)
  ]

  module _ (passed : j.seq_lower + safe_range < next) where
    pub floor_window : InWindow next floor
    floor_window = omega (arith, passed)

    pub floor_fresh : next ≤ floor + safe_range
    floor_fresh = omega (arith, passed)

    pub shifted_changes :
        Done next floor more floor_window floor_fresh
          (length j.changes)
          0
          j.changes
          (shift_to floor).changes
    shifted_changes =
        raise_old-Done next floor more floor_window floor_fresh (length j.changes) 0 next j.changes
          next_changes

  shift_window-IsJournal : IsJournal (shift_window bumped)
  shift_window-IsJournal = elim shift_cases [
    | inl (_, e) ↦ rw e (record { small = more; vector = next_changes })
    | inr (passed, e) ↦ rw e (record { small = more; vector = (shifted_changes passed).vector })
  ]

  shift_window-has_changed :
      (k since : ℕ)
      → ((has_changed k since j ≡ true → has_changed k since (shift_window bumped) ≡ true)
          × (floor < since → has_changed k since (shift_window bumped) ≡ has_changed k since j))
  shift_window-has_changed k since =
      rw
        (
          has_changed-stamp k since j v.vector,
          has_changed-stamp k since (shift_window bumped) shift_window-IsJournal.vector,
        )
        (elim shift_cases [
          | inl (_, e) ↦ rw (e, at_next) (λ h. h, λ h. refl)
          | inr (passed, e) ↦
              rw (e, ← at_next)
                (since_shifted next floor more (floor_window passed) (floor_fresh passed) k since
                  j.changes (shift_to floor).changes ((shifted_changes passed).shifts k))
        ])
    where
      at_next : is_since next since (stamp k j.changes) ≡ is_since j.seq since (stamp k j.changes)
      at_next =
          since_later j.seq next k since j.changes
            (later_seqs j.seq next (omega arith) more j.changes v.vector held)

  module _ (force : Bool) where
    pub bump_ways : (bump_seq force j ≡ j) ⊎ (bump_seq force j ≡ shift_window bumped)
    unfolding bump_seq
    bump_ways = elim (Bool-cases (not force && not j.partial_seq)) [
      | inl h ↦ inl (rw h refl)
      | inr h ↦ inr (
          rw h (
            ap (λ n. shift_window (record j { partial_seq = false; seq = n }))
              (omega (arith, more))))
    ]

    -- The next sequence number leaves a valid journal, if the window still holds all records then.
    pub bump_seq-IsJournal : IsJournal (bump_seq force j)
    bump_seq-IsJournal = elim bump_ways [ inl e ↦ rw e v | inr e ↦ rw e shift_window-IsJournal ]

    bump_seq_keeps :
        (k since : ℕ)
        → ((has_changed k since j ≡ true → has_changed k since (bump_seq force j) ≡ true)
            × (floor < since → has_changed k since (bump_seq force j) ≡ has_changed k since j))
    bump_seq_keeps k since = elim bump_ways [
      | inl e ↦ rw e (λ h. h, λ h. refl)
      | inr e ↦ rw e (shift_window-has_changed k since)
    ]

    -- In a valid journal whose lower bound is not ahead, if the next sequence number has 64 bits and
    -- the window still holds all records then: after `bumpSeq`, `hasChanged` says the same as before
    -- of every key, if it was true before, or if the moment is less than half a window before the
    -- next number. So no change is lost.
    pub has_changed-bump_seq :
        (k since : ℕ)
        → (leb since floor && not (has_changed k since j)) ≡ false
        → has_changed k since (bump_seq force j) ≡ has_changed k since j
    has_changed-bump_seq k since h =
        let (kept, same) = bump_seq_keeps k since in
        elim (Bool-cases (has_changed k since j)) [
          | inl e ↦ kept e ∙ sym e
          | inr e ↦ same (ground (arith, h, e))
        ]
