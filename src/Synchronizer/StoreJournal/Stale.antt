-- ===== src/Synchronizer/StoreJournal/Stale.antt =====
-- StoreJournal::bumpSeq (src/synchronizer.cpp): the lower bound that it computes depends on the
-- order of the records.
use libstored.Prelude.{ℕ, ◌≡◌, refl, ap, ◌∙◌, true, false, [], ◌∷◌, arith, length, inl, inr}
use libstored.Prelude.{◌+◌, ◌*◌, ◌%◌, ◌^◌, ◌<◌, ◌≤◌, ltb, min, sub_size}
use libstored.Synchronizer.Journal.{ObjectInfo, seq_lower_margin}
use libstored.Synchronizer.Journal.ShortSeq.{to_long}
use libstored.Synchronizer.StoreJournal.{StoreJournal, safe_range, raise_old, bump_seq}
use libstored.Synchronizer.StoreJournal.Vector.{IsJournal}
use libstored.Synchronizer.StoreJournal.Later.{AllHeld, later_seqs}
use libstored.Synchronizer.StoreJournal.Bump.{round_some}
use libstored.Synchronizer.StoreJournal.Window.{floor, shift_cases}

two_rounds :
    (now lower m : ℕ) (a b : ObjectInfo)
    → ltb safe_range (sub_size now (to_long now a.seq)) ≡ false
    → ltb safe_range (sub_size now (to_long now b.seq)) ≡ true
    → (raise_old now lower 2 0 (a ∷ b ∷ []) m).1 ≡ lower
unfolding raise_old
two_rounds now lower m a b fresh old =
    ap (λ r. r.1) (round_some now lower 1 0 m (a ∷ b ∷ []) (b ∷ []) a refl)
    ∙ rw fresh (
        ap (λ r. r.1) (round_some now lower 0 1 (min m (to_long now a.seq)) (a ∷ b ∷ []) [] b refl)
        ∙ rw old refl)

-- In a valid journal of two records, where `bumpSeq` moves the lower bound, the next sequence number
-- has 64 bits and the window still holds both: if the second record is older than the safe range,
-- and the first is within it, but older than half a window, the first one is below the new lower
-- bound. `seqLower` forgets it when the second is shifted.
pub bump_seq-below_seq_lower :
    (j : StoreJournal) (v : IsJournal j) (more : j.seq + 1 < 2 ^ 64)
    → (behind : j.seq_lower ≤ j.seq) → (held : AllHeld j.seq (j.seq + 1) j.changes)
    → (passed : j.seq_lower + safe_range < j.seq + 1) → (a b : ObjectInfo) → j.changes ≡ a ∷ b ∷ []
    → j.seq + 1 ≤ to_long j.seq a.seq + safe_range
    → to_long j.seq a.seq + 2 * seq_lower_margin < j.seq + 1
    → to_long j.seq b.seq + safe_range < j.seq + 1
    → to_long (j.seq + 1) a.seq < (bump_seq true j).seq_lower
unfolding bump_seq
bump_seq-below_seq_lower j v more behind held passed a b e fresh below old =
    elim (shift_cases j v more behind held) [
      | inl (h, _) ↦ absurd (omega (arith, h, passed))
      | inr (_, f) ↦
          rw (seq_after, same.0)
            (rw (ap (λ (k : StoreJournal). k.seq_lower) f, lower) (omega (arith, below)))
    ]
  where
    seq_after : (j.seq + 1) % 2 ^ 64 ≡ j.seq + 1
    seq_after = omega (arith, more)

    same :
        (to_long (j.seq + 1) a.seq ≡ to_long j.seq a.seq)
        × ((to_long (j.seq + 1) b.seq ≡ to_long j.seq b.seq) × Unit {0})
    same = rw e at (later_seqs j.seq (j.seq + 1) (omega arith) more j.changes v.vector held)

    lower :
        (raise_old
          (j.seq + 1)
          (floor j v more behind held)
          (length j.changes)
          0
          j.changes
          (j.seq + 1)).1
        ≡ floor j v more behind held
    lower = rw e (
        two_rounds (j.seq + 1) (floor j v more behind held) (j.seq + 1) a b
          (rw (same.0) (unfold sub_size in ground arith))
          (rw (same.1.0) (unfold sub_size in ground arith)))
