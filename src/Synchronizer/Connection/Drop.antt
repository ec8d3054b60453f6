-- ===== src/Synchronizer/Connection/Drop.antt =====
-- How SyncConnection (src/synchronizer.cpp) lets go of stores: drop, bye, erase, eraseIn, eraseOut
-- and dropNonSources.
use libstored.Prelude.{ℕ, Bool, true, false, not, ◌||◌, [], ◌∷◌, ◌++◌, none, some}
use libstored.Prelude.{◌==◌, if◌then◌else◌}
use libstored.Protocol.{Bytes}
use libstored.Synchronizer.StoreJournal.Message.{encode_hash}
use libstored.Synchronizer.Map.{Map, find, contains, erase_if}
use libstored.Synchronizer.Map
use libstored.Synchronizer.Connection.{
  StoreInfo, SyncConnection, Registry, to_journal, bye, send, encode_cmd, encode_id,
}

-- The first loop of `drop`: one entry of the journal is erased, if there is one.
unfoldable pub erase_first : ℕ → Map ℕ → Map ℕ
erase_first j [] = []
erase_first j (e ∷ m) = let rest = erase_first j m in if e.1 == j then m else e ∷ rest

unfoldable pub has_id : ℕ → Map ℕ → Bool
has_id j [] = false
has_id j (e ∷ m) = e.1 == j || has_id j m

-- All the ids of a journal are erased.
unfoldable pub erase_ids : ℕ → Map ℕ → Map ℕ
erase_ids j m = erase_if (λ e. e.1 == j) m

unfoldable pub drop_non_sources : SyncConnection → SyncConnection
drop_non_sources c = record c { stores = erase_if (λ e. not e.1.source) c.stores }

unfoldable pub erase_in : ℕ → SyncConnection → SyncConnection
erase_in id c = elim (find id c.id_in) [
  | none ↦ c
  | some j ↦ record c { stores = Map.erase j c.stores; id_in = Map.erase id c.id_in }
]

-- The ids of all the stores that have an id for the other party.
unfoldable pub erase_ids_out : ℕ → Map StoreInfo → Map ℕ → Map ℕ
unfolding erase_ids
erase_ids_out id [] m = m
erase_ids_out id ((j, info) ∷ stores) m =
    erase_ids_out id stores (if info.id_out == id then erase_ids j m else m)

unfoldable pub erase_out : ℕ → SyncConnection → SyncConnection
unfolding erase_ids_out
erase_out id c = record c {
  stores = erase_if (λ e. e.1.id_out == id) c.stores;
  id_in = erase_ids_out id c.stores c.id_in;
}

module _ (reg : Registry) where
  unfoldable pub drop : ℕ → SyncConnection → SyncConnection
  unfolding erase_first has_id send encode_cmd encode_hash
  drop j c =
      let c' = record c { id_in = erase_first j c.id_in; stores = Map.erase j c.stores } in
      if has_id j c.id_in || contains j c.stores
      then send (encode_cmd reg.little bye false ++ encode_hash (reg.hash j) true) c'
      else c'

  -- `bye()`
  unfoldable pub bye_all : SyncConnection → SyncConnection
  unfolding send encode_cmd
  bye_all c = record (send (encode_cmd reg.little bye true) c) { stores = []; id_in = [] }

  unfoldable pub erase_store : Bytes → SyncConnection → SyncConnection
  unfolding to_journal erase_ids
  erase_store hash c = elim (to_journal reg hash) [
    | none ↦ c
    | some j ↦ record c { stores = Map.erase j c.stores; id_in = erase_ids j c.id_in }
  ]

  -- `bye` with a hash
  unfoldable pub bye_hash : Bytes → SyncConnection → SyncConnection
  unfolding erase_store send encode_cmd encode_hash
  bye_hash hash c =
      send (encode_cmd reg.little bye false ++ encode_hash hash true) (erase_store hash c)

  -- `bye` with an id. `encodeId` has `last` false by default.
  unfoldable pub bye_id : ℕ → SyncConnection → SyncConnection
  unfolding erase_in send encode_cmd encode_id
  bye_id id c =
      send (encode_cmd reg.little bye false ++ encode_id reg.little id false) (erase_in id c)
