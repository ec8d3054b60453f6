-- ===== src/Synchronizer/Service.antt =====
-- Synchronizer (include/libstored/synchronizer.h, src/synchronizer.cpp): the stores by their hashes,
-- and the connections by their pointers.
pub mod Unmap
use libstored.Prelude.{
  ℕ, ◌≡◌, refl, ap, ◌∙◌, Bool, true, false, not, ◌&&◌, ◌||◌, List, [], ◌∷◌, Option, none, some,
  Bool-cases, inl, inr, arith,
}
use libstored.Prelude.{◌==◌, if◌then◌else◌, ltb}
use libstored.Protocol.{Bytes, Chunk}
use libstored.Synchronizer.Journal.{ObjectInfo}
use libstored.Synchronizer.Map.{Map, find, set, contains, erase_if}
use libstored.Synchronizer.Map
use libstored.Synchronizer.Connection.{
  SyncConnection, Registry, Outcome, running, assertion_fails, unfinished, past_end, ◌>>=◌,
  connected, same_hash, find_hash, to_journal, send,
}
use libstored.Synchronizer.Connection.Drop.{bye_all}
use libstored.Synchronizer.Connection.Drop
use libstored.Synchronizer.Connection.Messages.{Heap, source}
use libstored.Synchronizer.Connection.Messages
use libstored.Synchronizer.Connection.Receive

-- The journals, and what the connections know of them, are fields here.
pub record Synchronizer : Type 0 where
  pub registry : Registry
  pub connections : Map SyncConnection
  pub heap : Heap

-- `strcmp(a, b) < 0`
unfoldable hash_before : Bytes → Bytes → Bool
hash_before [] [] = false
hash_before [] (y ∷ ys) = true
hash_before (x ∷ xs) [] = false
hash_before (x ∷ xs) (y ∷ ys) = let rest = hash_before xs ys in if x == y then rest else ltb x y

-- `insert` of std::map, which leaves an entry that is there.
unfoldable pub insert_hash : Bytes → ℕ → List (Bytes × ℕ) → List (Bytes × ℕ)
unfolding hash_before
insert_hash hash j [] = (hash, j) ∷ []
insert_hash hash j (e ∷ m) =
    let rest = insert_hash hash j m in
    if hash_before hash e.0
    then (hash, j) ∷ (e ∷ m)
    else if same_hash hash e.0
    then e ∷ m
    else e ∷ rest

unfoldable pub erase_hash : Bytes → List (Bytes × ℕ) → List (Bytes × ℕ)
erase_hash hash [] = []
erase_hash hash (e ∷ m) =
    let rest = erase_hash hash m in if same_hash hash e.0 then rest else e ∷ rest

unfoldable pub map_store : ℕ → Synchronizer → Synchronizer
unfolding insert_hash
map_store j s =
    let reg = s.registry in
    record s { registry = record reg { store_map = insert_hash (reg.hash j) j reg.store_map } }

unfoldable pub drop_all : Registry → ℕ → Map SyncConnection → Map SyncConnection
drop_all reg j [] = []
drop_all reg j ((k, c) ∷ cs) = (k, Drop.drop reg j c) ∷ drop_all reg j cs

unfoldable pub unmap_store : ℕ → Synchronizer → Synchronizer
unfolding erase_hash drop_all
unmap_store j s =
    let reg = s.registry in
    let reg' = record reg { store_map = erase_hash (reg.hash j) reg.store_map } in
    record s { registry = reg'; connections = drop_all reg' j s.connections }

unfoldable connect : ℕ → Synchronizer → Synchronizer
connect k s = record s { connections = set k connected s.connections }

-- The connection says goodbye when it is deleted: what it has sent.
unfoldable disconnect : ℕ → Synchronizer → Synchronizer × List Chunk
unfolding bye_all
disconnect k s = elim (find k s.connections) [
  | none ↦ (s, [])
  | some c ↦ (record s { connections = Map.erase k s.connections }, (bye_all s.registry c).sent)
]

unfoldable sync_from : ℕ → ℕ → Synchronizer → Outcome Synchronizer
unfolding to_journal source
sync_from j k s = elim (to_journal s.registry (s.registry.hash j)) [
  | none ↦ running s
  | some journal ↦ elim (find k s.connections) [
    | none ↦ running s
    | some c ↦ do
      c' ← source s.registry journal c
      running (record s { connections = set k c' s.connections })
  ]
]

-- `process` of a journal on each connection in turn.
unfoldable process_on : Registry → ℕ → Map SyncConnection → Heap → Map SyncConnection × Heap
unfolding Messages.process
process_on reg j [] heap = ([], heap)
process_on reg j ((k, c) ∷ cs) heap =
    let (_, c', heap') = Messages.process reg j c heap in
    let (cs', last) = process_on reg j cs heap' in ((k, c') ∷ cs', last)

unfoldable process_journal : ℕ → Synchronizer → Synchronizer
unfolding process_on
process_journal j s =
    let (cs, heap) = process_on s.registry j s.connections s.heap in
    record s { connections = cs; heap = heap }

unfoldable process_stores : List (Bytes × ℕ) → Synchronizer → Synchronizer
unfolding process_journal
process_stores [] s = s
process_stores ((hash, j) ∷ stores) s = process_stores stores (process_journal j s)

-- `process` of all stores on all connections
unfoldable process_all : Synchronizer → Synchronizer
unfolding process_stores
process_all s = process_stores s.registry.store_map s

-- `process` of a journal on one connection
unfoldable process_one : ℕ → ℕ → Synchronizer → ℕ × Synchronizer
unfolding Messages.process
process_one k j s = elim (find k s.connections) [
  | none ↦ (0, s)
  | some c ↦
      let (seq, c', heap) = Messages.process s.registry j c s.heap in
      (seq, record s { connections = set k c' s.connections; heap = heap })
]

-- `process` of all stores on one connection
unfoldable process_connection : ℕ → List (Bytes × ℕ) → Synchronizer → Synchronizer
unfolding process_one
process_connection k [] s = s
process_connection k ((hash, j) ∷ stores) s = process_connection k stores (process_one k j s).1

-- `isSynchronizing`, and over another connection than one.
unfoldable pub is_synchronizing : ℕ → Map SyncConnection → Bool
unfolding Messages.is_synchronizing
is_synchronizing j [] = false
is_synchronizing j ((k, c) ∷ cs) = Messages.is_synchronizing j c || is_synchronizing j cs

unfoldable is_synchronizing_elsewhere : ℕ → ℕ → Map SyncConnection → Bool
unfolding Messages.is_synchronizing
is_synchronizing_elsewhere j other [] = false
is_synchronizing_elsewhere j other ((k, c) ∷ cs) =
    not (k == other) && Messages.is_synchronizing j c || is_synchronizing_elsewhere j other cs

module _ (sort : List ObjectInfo → List ObjectInfo) where
  -- A connection receives a message.
  unfoldable receive : ℕ → ℕ → Bytes → Synchronizer → Outcome Synchronizer
  unfolding Receive.decode is_synchronizing_elsewhere
  receive fuel k bytes s = elim (find k s.connections) [
    | none ↦ running s
    | some c ↦ do
      (c', heap) ←
          Receive.decode s.registry sort (λ j. is_synchronizing_elsewhere j k s.connections) fuel
            bytes c s.heap
      running (record s { connections = set k c' s.connections; heap = heap })
  ]
