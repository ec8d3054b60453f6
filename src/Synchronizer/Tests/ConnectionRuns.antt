-- ===== src/Synchronizer/Tests/ConnectionRuns.antt =====
-- Runs of SyncConnection (src/synchronizer.cpp), of two parties with a store of four bytes.
use libstored.Prelude.{ℕ, ◌≡◌, refl, Bool, true, false, [], ◌∷◌, some, inl, arith}
use libstored.Prelude.{◌%◌, ◌^◌, ◌+◌}
use libstored.Protocol.{frames}
use libstored.Synchronizer.Journal.Halves.{halves}
use libstored.Synchronizer.Journal.ShortSeq.{to_long}
use libstored.Synchronizer.StoreJournal.{StoreJournal, iterate_changed, any_changed}
use libstored.Synchronizer.StoreJournal.Message.Updates.{IsStore, AllInStore}
use libstored.Synchronizer.Connection.{
  SyncConnection, Registry, connected, next_id, running, to_journal, encode_cmd, encode_id, send,
}
use libstored.Synchronizer.Connection.Drop.{drop_non_sources, bye_id}
use libstored.Synchronizer.Connection.Receive.{decode_bye}
use libstored.Synchronizer.Connection.NextId.{Fresh, next_id-Fresh}
use libstored.Synchronizer.Connection.Start.{Started, source-decode}
use libstored.Synchronizer.Connection.Exchange.{Updated, process-decode}
use libstored.Synchronizer.Connection.HelloAgain.{is_running, decode_bye_endless}
use libstored.Synchronizer.Connection.Messages.{source}
use libstored.Synchronizer.Connection.Valid.{IsValid}
use libstored.Synchronizer.Connection.Valid.Steps.{IsSafe}
use libstored.Synchronizer.Connection.Valid.Reach.{
  Reach, start, asked, reach-IsValid, reach-decode_bye,
}
use libstored.Synchronizer.Tests.Sorting.{insertion_sort}

-- A store with a change of two bytes, and one of the same kind without.
abbrev pub changed_store : StoreJournal
changed_store = record {
  little = true;
  buffer = 10 ∷ 11 ∷ 12 ∷ 13 ∷ [];
  key_size = 1;
  seq = 5;
  seq_lower = 0;
  partial_seq = true;
  changes = record { key = 1; len = 2; seq = 5; highest = 5 } ∷ [];
}

abbrev other_store : StoreJournal
other_store = record changed_store { buffer = 0 ∷ 0 ∷ 0 ∷ 0 ∷ []; seq = 1; changes = [] }

-- Journal 0 has the hash `abc`.
abbrev pub registry : Registry
registry = record {
  little = true;
  hash = λ j. 97 ∷ 98 ∷ 99 ∷ [];
  store_map = (97 ∷ 98 ∷ 99 ∷ [], 0) ∷ [];
}

abbrev nowhere : ℕ → Bool
nowhere j = false

-- A connection with two ids in use, 65535 among them.
abbrev busy : SyncConnection
busy = record { stores = []; id_in = (1, 0) ∷ (65535, 2) ∷ []; id_in_next = 65535; sent = [] }

next_id_example :
    (id : ℕ) × ((next_id busy ≡ running (id, record busy { id_in_next = (id + 1) % 2 ^ 16 }))
      × Fresh busy.id_in id)
next_id_example = next_id-Fresh busy (omega arith, omega arith)

known : to_journal registry (97 ∷ 98 ∷ 99 ∷ []) ≡ some 0
unfolding to_journal
known = refl

start_example :
    Started insertion_sort nowhere 0 registry registry 0 0 connected connected
      (λ j. other_store)
      (λ j. changed_store)
unfolding connected
start_example =
    source-decode insertion_sort nowhere 0 registry registry 0 0 connected connected
      (λ j. other_store) (λ j. changed_store) refl (omega arith, (omega arith, (omega arith, tt)))
      known refl (omega arith, omega arith) (omega arith, omega arith) refl (omega arith)

-- Both parties synchronize the store.
abbrev pub party : Bool → ℕ → ℕ → SyncConnection
party source id_in id_out = record {
  stores = (0, record { seq = 1; id_out = id_out; source = source }) ∷ [];
  id_in = (id_in, 0) ∷ [];
  id_in_next = 7;
  sent = [];
}

changed_IsStore : IsStore changed_store
changed_IsStore = record { typed = inl refl; size = ground arith }

objects_in_store : AllInStore changed_store.buffer (iterate_changed 1 changed_store)
unfolding iterate_changed halves to_long
objects_in_store = ground arith

has_changes : any_changed 1 changed_store ≡ true
unfolding any_changed halves to_long
has_changes = refl

exchange_example :
    Updated insertion_sort nowhere 0 registry registry 0 0 4 6 1 1 true false
      (party true 4 6)
      (party false 6 4)
      (λ j. changed_store)
      (λ j. other_store)
exchange_example =
    process-decode insertion_sort nowhere 0 registry registry 0 0 4 6 1 1 true false
      (party true 4 6) (party false 6 4) (λ j. changed_store) (λ j. other_store) refl
      (record { entry = refl; mine = refl }) (record { entry = refl; mine = refl }) (omega arith)
      (omega arith) has_changes changed_IsStore objects_in_store
      (record { little = refl; key_size = refl; size = refl }) (omega arith) (omega arith)

endless_example : is_running (decode_bye registry 1000 [] (party true 4 6)) ≡ false
unfolding drop_non_sources
endless_example = decode_bye_endless registry 1000 (party true 4 6) refl

-- `bye` with an id does not complete a frame.
bye_unfinished : frames [] (bye_id registry 4 (party true 4 6)).sent ≡ []
unfolding bye_id frames send encode_cmd encode_id
bye_unfinished = refl

-- The connection behind `source`.
abbrev asking : SyncConnection
asking = record {
  stores = (0, record { seq = 0; id_out = 0; source = true }) ∷ [];
  id_in = (1, 0) ∷ [];
  id_in_next = 2;
  sent = (104 ∷ [], false) ∷ (97 ∷ 98 ∷ 99 ∷ 0 ∷ [], false) ∷ (1 ∷ 0 ∷ [], true) ∷ [];
}

asks : source registry 0 connected ≡ running asking
unfolding source next_id connected
asks = refl

asking_reached : Reach registry insertion_sort asking
asking_reached = asked 0 connected asking start asks

reach_connection_example : IsValid asking
reach_connection_example = reach-IsValid registry insertion_sort asking asking_reached

reach_bye_example : IsSafe (decode_bye registry 10 (1 ∷ 0 ∷ []) asking)
reach_bye_example = reach-decode_bye registry insertion_sort 10 (1 ∷ 0 ∷ []) asking asking_reached
