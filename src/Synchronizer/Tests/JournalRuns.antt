-- ===== src/Synchronizer/Tests/JournalRuns.antt =====
-- Runs of the operations of StoreJournal (src/synchronizer.cpp).
use libstored.Prelude.{not, ◌-◌, ◌≡◌, refl, true, false, ◌&&◌, ◌||◌, [], ◌∷◌, arith}
use libstored.Prelude.{◌==◌, if◌then◌else◌, ◌+◌, ◌-◌, ◌*◌, ◌^◌, ◌<◌, ◌≤◌, leb}
use libstored.Synchronizer.Journal.{ObjectInfo, iterate, seq_lower_margin}
use libstored.Synchronizer.Journal.Halves.{halves}
use libstored.Synchronizer.Journal.ShortSeq.{to_long}
use libstored.Synchronizer.Journal.Stamp.{stamp}
use libstored.Synchronizer.Journal.Find.{IsTree}
use libstored.Synchronizer.Journal.Iterate.{since_only, iterate-since_only}
use libstored.Synchronizer.Journal.Update.Stamps.{is_some}
use libstored.Synchronizer.StoreJournal.{
  StoreJournal, initial, changed, has_changed, bump_seq, clean,
}
use libstored.Synchronizer.StoreJournal.Changed.{has_changed-changed}
use libstored.Synchronizer.StoreJournal.Vector.{IsJournal}
use libstored.Synchronizer.StoreJournal.Later.{AllHeld}
use libstored.Synchronizer.StoreJournal.Window.{has_changed-bump_seq}
use libstored.Synchronizer.StoreJournal.Stale.{bump_seq-below_seq_lower}
use libstored.Synchronizer.StoreJournal.Clean.{clean_young}
use libstored.Synchronizer.StoreJournal.Erase.{has_changed-clean}
use libstored.Synchronizer.StoreJournal.Reach.{Reach, start, change, bump, reach-IsJournal}
use libstored.Synchronizer.Tests.Sorting.{insertion_sort, insertion_sort-IsSort}

-- A store of four bytes, of which an object was changed.
abbrev one_change : StoreJournal
one_change = changed insertion_sort 2 1 true (initial true (10 ∷ 11 ∷ 12 ∷ 13 ∷ []))

one_change-Reach : Reach insertion_sort one_change
one_change-Reach = change 2 1 true (start true (10 ∷ 11 ∷ 12 ∷ 13 ∷ []))

one_change-IsJournal : IsJournal one_change × (one_change.seq_lower ≤ one_change.seq)
one_change-IsJournal =
    reach-IsJournal insertion_sort insertion_sort-IsSort one_change one_change-Reach

has_changed_example : has_changed 2 1 (changed insertion_sort 0 2 true one_change) ≡ (
    if 2 == 0
    then (is_some (stamp 0 one_change.changes) || true) && leb 1 one_change.seq
    else has_changed 2 1 one_change)
has_changed_example =
    has_changed-changed insertion_sort insertion_sort-IsSort 0 2 one_change one_change-IsJournal.0
      true 2 1

-- Two records, the second of which is older than the safe range at the next sequence number.
abbrev old : ObjectInfo
old = record { key = 2; len = 1; seq = 100; highest = 20000 }

abbrev recent : ObjectInfo
recent = record { key = 1; len = 1; seq = 20000; highest = 20000 }

abbrev aged : StoreJournal
aged = record {
  little = true;
  buffer = 10 ∷ 11 ∷ 12 ∷ 13 ∷ [];
  key_size = 1;
  seq = 60000;
  seq_lower = 0;
  partial_seq = true;
  changes = recent ∷ old ∷ [];
}

aged-IsTree : IsTree 2 60000 (recent ∷ old ∷ [])
unfolding halves to_long
aged-IsTree = ground arith

aged-IsJournal : IsJournal aged
aged-IsJournal = record {
  small = ground arith;
  vector = record { short = ground arith; ascending = ground arith; tree = aged-IsTree };
}

aged_held : AllHeld 60000 60001 (recent ∷ old ∷ [])
unfolding to_long
aged_held = ground arith

iterate_example :
    iterate 2 60000 5000 (recent ∷ old ∷ []) ≡ since_only 60000 5000 (recent ∷ old ∷ [])
iterate_example = iterate-since_only 60000 5000 2 (recent ∷ old ∷ []) (ground arith) aged-IsTree

old_known : (leb 50 (aged.seq + 1 - 2 * seq_lower_margin) && not (has_changed 2 50 aged)) ≡ false
unfolding has_changed halves to_long
old_known = refl

bump_seq_example : has_changed 2 50 (bump_seq false aged) ≡ has_changed 2 50 aged
bump_seq_example =
    has_changed-bump_seq aged aged-IsJournal (ground arith) (ground arith) aged_held false 2 50
      old_known

ages :
    (60001 ≤ to_long 60000 20000 + 49152)
    × (to_long 60000 20000 + 32768 < 60001)
    × (to_long 60000 100 + 49152 < 60001)
unfolding to_long
ages = ground arith

below_seq_lower_example : to_long 60001 20000 < (bump_seq true aged).seq_lower
below_seq_lower_example =
    bump_seq-below_seq_lower aged aged-IsJournal (ground arith) (ground arith) aged_held
      (ground arith) recent old refl ages.0 ages.1 ages.2

clean_example : has_changed 1 20000 (clean insertion_sort 5000 aged) ≡ has_changed 1 20000 aged
clean_example =
    has_changed-clean insertion_sort insertion_sort-IsSort 5000 (ground arith) aged aged-IsJournal 1
      20000 (ground arith)

one_change_young : one_change.seq < 32768
unfolding changed initial
one_change_young = ground arith

clean_young_example : (clean insertion_sort 0 one_change).changes ≡ []
clean_young_example =
    clean_young one_change one_change-IsJournal.0 one_change_young insertion_sort
      insertion_sort-IsSort

-- The change, and the next sequence number.
abbrev bumped : StoreJournal
bumped = bump_seq false one_change

one_change_more : one_change.seq + 1 < 2 ^ 64
unfolding changed initial
one_change_more = ground arith

one_change_held : AllHeld one_change.seq (one_change.seq + 1) one_change.changes
unfolding changed initial to_long halves
one_change_held = ground arith

bumped-Reach : Reach insertion_sort bumped
bumped-Reach = bump false one_change_more one_change_held one_change-Reach

reach_example : IsJournal bumped × (bumped.seq_lower ≤ bumped.seq)
reach_example = reach-IsJournal insertion_sort insertion_sort-IsSort bumped bumped-Reach
