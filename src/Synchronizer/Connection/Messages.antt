-- ===== src/Synchronizer/Connection/Messages.antt =====
-- What SyncConnection (src/synchronizer.cpp) sends of its own: source, helloAgain, reset and
-- process.
use libstored.Prelude.{ℕ, zero, suc, Bool, true, false, not, [], ◌∷◌, ◌++◌, Option, none, some}
use libstored.Prelude.{◌==◌, if◌then◌else◌}
use libstored.Synchronizer.StoreJournal.{StoreJournal, any_changed}
use libstored.Synchronizer.StoreJournal.Message.{encode_hash, encode_updates}
use libstored.Synchronizer.Map.{Map, find, contains, set}
use libstored.Synchronizer.Connection.{
  StoreInfo, no_info, SyncConnection, Registry, Outcome, running, unfinished, assert_that, ◌>>=◌,
  hello, update, bye, send, encode_cmd, encode_id, next_id,
}
use libstored.Synchronizer.Connection.Drop.{drop_non_sources}

unfoldable pub is_synchronizing : ℕ → SyncConnection → Bool
is_synchronizing j c = contains j c.stores

-- The first id of a journal, or 0.
unfoldable pub id_of : ℕ → Map ℕ → ℕ
id_of j [] = 0
id_of j ((id, k) ∷ m) = let rest = id_of j m in if k == j then id else rest

-- The journals, by their pointers.
abbrev pub Heap : Type 0
Heap = ℕ → StoreJournal

unfoldable pub put_journal : ℕ → StoreJournal → Heap → Heap
put_journal j journal heap k = if k == j then journal else heap k

module _ (reg : Registry) where
  unfoldable pub source : ℕ → SyncConnection → Outcome SyncConnection
  unfolding send encode_cmd encode_hash encode_id
  source j c = elim (find j c.stores) [
    | some info ↦ assert_that info.source c
    | none ↦ do
      let c1 =
          send (encode_cmd reg.little hello false ++ encode_hash (reg.hash j) false)
            (record c { stores = set j (record no_info { source = true }) c.stores })
      (id, c2) ← next_id c1
      running (send (encode_id reg.little id true) (record c2 { id_in = set id j c2.id_in }))
  ]

  -- `helloAgain` of a store, by its entry.
  unfoldable pub hello_entry : ℕ → Option StoreInfo → SyncConnection → Outcome SyncConnection
  unfolding id_of send encode_cmd encode_hash encode_id
  hello_entry j none c = running c
  hello_entry j (some info) c =
      let id = id_of j c.id_in in
      let c' = record c { stores = set j (record info { id_out = 0 }) c.stores } in
      assert_that (not (id == 0)) (
        send
          (encode_cmd reg.little hello false
            ++ (encode_hash (reg.hash j) false ++ encode_id reg.little id true))
          c')

  unfoldable pub hello_again : ℕ → SyncConnection → Outcome SyncConnection
  unfolding hello_entry
  hello_again j c = hello_entry j (find j c.stores) c

  -- The loop of `helloAgain` without a store, which has no step to the next one.
  unfoldable pub hello_again_all : ℕ → SyncConnection → Outcome SyncConnection
  unfolding hello_again
  hello_again_all zero c = unfinished
  hello_again_all (suc fuel) c = elim c.stores [
    | [] ↦ running c
    | (j, info) ∷ _ ↦ do
      c' ← if info.source then hello_again j c else running c
      hello_again_all fuel c'
  ]

  -- `reset`, with the rounds of the loop. The layer below is reset too.
  unfoldable pub reset : ℕ → SyncConnection → Outcome SyncConnection
  unfolding send encode_cmd drop_non_sources hello_again_all
  reset fuel c = hello_again_all fuel (drop_non_sources (send (encode_cmd reg.little bye false) c))

  -- The updates of a journal since those of before. The result is the new sequence number, or 0.
  unfoldable pub send_updates : ℕ → StoreInfo → SyncConnection → Heap → ℕ × SyncConnection × Heap
  unfolding any_changed encode_updates put_journal send encode_cmd encode_id
  send_updates j info c heap =
      let (chunks, journal) = encode_updates info.seq false (heap j) in
      let c' =
        send
          (encode_cmd reg.little update false
            ++ (encode_id reg.little info.id_out false ++ (chunks ++ (([], true) ∷ []))))
          (record c { stores = set j (record info { seq = journal.seq }) c.stores }) in
      if any_changed info.seq (heap j)
      then (journal.seq, c', put_journal j journal heap)
      else (0, c, heap)

  -- `process` of a journal, by its entry.
  unfoldable pub process_entry :
      ℕ → Option StoreInfo → SyncConnection → Heap → ℕ × SyncConnection × Heap
  unfolding send_updates
  process_entry j none c heap = (0, c, heap)
  process_entry j (some info) c heap = send_updates j info c heap

  unfoldable pub process : ℕ → SyncConnection → Heap → ℕ × SyncConnection × Heap
  unfolding process_entry
  process j c heap = process_entry j (find j c.stores) c heap
