-- ===== src/Synchronizer/StoreJournal/Reach.antt =====
-- The states that a StoreJournal (src/synchronizer.cpp) can be in.
use libstored.Prelude.{ℕ, zero, suc, Bool, List, arith, length, inl, inr}
use libstored.Prelude.{◌+◌, ◌-◌, ◌*◌, ◌^◌, ◌<◌, ◌≤◌}
use libstored.Protocol.{Bytes}
use libstored.Synchronizer.Journal.{ObjectInfo, seq_lower_margin}
use libstored.Synchronizer.Journal.Sort.{IsSort}
use libstored.Synchronizer.StoreJournal.{StoreJournal, initial, changed, bump_seq, clean, raise_old}
use libstored.Synchronizer.StoreJournal.Changed.{changed-IsJournal}
use libstored.Synchronizer.StoreJournal.Vector.{IsJournal}
use libstored.Synchronizer.StoreJournal.Later.{AllHeld}
use libstored.Synchronizer.StoreJournal.Bump.{round, round_empty, round_some, drop_cases}
use libstored.Synchronizer.StoreJournal.Window.{bump_seq-IsJournal, bump_ways, shift_cases}
use libstored.Synchronizer.StoreJournal.Erase.{clean-IsJournal}

-- The steps from a new journal: changes, `bumpSeq` while the window holds all records, and `clean`
-- with a threshold.
pub data Reach (sort : List ObjectInfo → List ObjectInfo) : StoreJournal → Type 0 where
  start : (little : Bool) (buffer : Bytes) → Reach sort (initial little buffer)
  change :
      {j : StoreJournal} (key len : ℕ) (insert_if_new : Bool)
      → Reach sort j
      → Reach sort (changed sort key len insert_if_new j)
  bump :
      {j : StoreJournal} (force : Bool)
      → j.seq + 1 < 2 ^ 64
      → AllHeld j.seq (j.seq + 1) j.changes
      → Reach sort j
      → Reach sort (bump_seq force j)
  cleaned :
      {j : StoreJournal} (oldest : ℕ) → 0 < oldest → Reach sort j → Reach sort (clean sort oldest j)

-- The lower bound does not pass the present.
lower_bounded :
    (now lower n i m : ℕ) (xs : List ObjectInfo)
    → lower ≤ now
    → m ≤ now
    → (raise_old now lower n i xs m).1 ≤ now
unfolding raise_old
lower_bounded now lower zero i m xs h k = k
lower_bounded now lower (suc n) i m xs h k = elim (drop_cases now lower i xs) [
  | inl e ↦ rw (round_empty now lower n i m xs e) k
  | inr (o, rest, e) ↦ rw (round_some now lower n i m xs rest o e) (
      lower_bounded now lower n (suc i) (round now lower o xs m).1 (round now lower o xs m).0 h
        (ground arith))
]

initial-IsJournal : (little : Bool) (buffer : Bytes) → IsJournal (initial little buffer)
unfolding initial
initial-IsJournal little buffer = record {
  small = ground arith;
  vector = record { short = tt; ascending = tt; tree = tt };
}

module _ (sort : List ObjectInfo → List ObjectInfo) (sorts : IsSort sort) where
  bump_seq-lower :
      (force : Bool) (j : StoreJournal) (v : IsJournal j) (more : j.seq + 1 < 2 ^ 64)
      → (behind : j.seq_lower ≤ j.seq) → (held : AllHeld j.seq (j.seq + 1) j.changes)
      → (bump_seq force j).seq_lower ≤ (bump_seq force j).seq
  bump_seq-lower force j v more behind held = elim (bump_ways j v more behind held force) [
    | inl e ↦ rw e behind
    | inr e ↦ rw e (elim (shift_cases j v more behind held) [
      | inl (_, f) ↦ rw f (omega (arith, behind))
      | inr (_, f) ↦ rw f (
          lower_bounded (j.seq + 1) (j.seq + 1 - 2 * seq_lower_margin) (length j.changes) 0
            (j.seq + 1) j.changes (omega arith) (omega arith))
    ])
  ]

  -- With a sort that permutes and orders by the keys, every state that these steps reach has a sorted vector that is a tree with short numbers of the
  -- window, and a lower bound that is not ahead of the sequence number.
  pub reach-IsJournal : (j : StoreJournal) → Reach sort j → IsJournal j × (j.seq_lower ≤ j.seq)
  unfolding initial changed clean
  reach-IsJournal j (start little buffer) = (initial-IsJournal little buffer, omega arith)
  reach-IsJournal j (change {j = i} key len insert_if_new r) =
      let (v, l) = reach-IsJournal i r in
      (changed-IsJournal sort sorts key len i v insert_if_new, l)
  reach-IsJournal j (bump {j = i} force more held r) =
      let (v, l) = reach-IsJournal i r in
      (bump_seq-IsJournal i v more l held force, bump_seq-lower force i v more l held)
  reach-IsJournal j (cleaned {j = i} oldest given r) =
      let (v, l) = reach-IsJournal i r in (clean-IsJournal sort sorts oldest given i v, l)
