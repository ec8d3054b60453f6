-- ===== src/Synchronizer/Service/Unmap.antt =====
-- map and unmap of Synchronizer (include/libstored/synchronizer.h).
use libstored.Prelude.{
  ℕ, ◌≡◌, refl, ap, ◌∙◌, false, ◌||◌, List, [], ◌∷◌, none, Bool-cases, inl, inr, arith,
}
use libstored.Prelude.{◌==◌, ◌≢◌, ◌+◌, ◌-◌, if◌then◌else◌, map, ap₂}
use libstored.Protocol.{Bytes}
use libstored.Synchronizer.Map.{Map, find, contains, erase_if}
use libstored.Synchronizer.Map
use libstored.Synchronizer.Connection.{SyncConnection, Registry, same_hash, find_hash, to_journal}
use libstored.Synchronizer.Connection.Drop.{drop, has_id, erase_first}
use libstored.Synchronizer.Connection.Messages
use libstored.Synchronizer.Service.{
  Synchronizer, erase_hash, drop_all, unmap_store, is_synchronizing,
}

contains-erase : {V : Type 0} (k : ℕ) (m : Map V) → contains k (Map.erase k m) ≡ false
contains-erase k [] = refl
contains-erase k (e ∷ m) = elim (Bool-cases (e.0 == k)) [
  | inl h ↦ rw h (contains-erase k m)
  | inr h ↦
      let other : (k == e.0) ≡ false = ground (arith, h) in
      ap (contains k) (kept h) ∙ rw (contains, other) (contains-erase k m)
]
  where
    kept : (e.0 == k) ≡ false → Map.erase k (e ∷ m) ≡ e ∷ Map.erase k m
    kept h = rw h refl

find_hash-erase_hash :
    (hash : Bytes) (m : List (Bytes × ℕ)) → find_hash hash (erase_hash hash m) ≡ none
unfolding find_hash erase_hash
find_hash-erase_hash hash [] = refl
find_hash-erase_hash hash (e ∷ m) = elim (Bool-cases (same_hash hash e.0)) [
  | inl h ↦ rw h (find_hash-erase_hash hash m)
  | inr h ↦ rw (h, h) (find_hash-erase_hash hash m)
]

drop-is_synchronizing :
    (reg : Registry) (j : ℕ) (c : SyncConnection)
    → Messages.is_synchronizing j (drop reg j c) ≡ false
unfolding drop Messages.is_synchronizing
drop-is_synchronizing reg j c = elim (Bool-cases (has_id j c.id_in || contains j c.stores)) [
  | inl h ↦ rw h (contains-erase j c.stores)
  | inr h ↦ rw h (contains-erase j c.stores)
]

drop_all-is_synchronizing :
    (reg : Registry) (j : ℕ) (cs : Map SyncConnection)
    → is_synchronizing j (drop_all reg j cs) ≡ false
unfolding is_synchronizing drop_all
drop_all-is_synchronizing reg j [] = refl
drop_all-is_synchronizing reg j ((k, c) ∷ cs) =
    ap (λ b. b || is_synchronizing j (drop_all reg j cs)) (drop-is_synchronizing reg j c)
    ∙ drop_all-is_synchronizing reg j cs

-- How many ids a journal has among those of a connection, and in each connection of a list.
abbrev count_ids : ℕ → Map ℕ → ℕ
count_ids j [] = 0
count_ids j (e ∷ m) = if e.1 == j then 1 + count_ids j m else count_ids j m

abbrev pub id_counts : ℕ → Map SyncConnection → List ℕ
id_counts j cs = map (λ e. count_ids j e.1.id_in) cs

count_ids-erase_first : (j : ℕ) (m : Map ℕ) → count_ids j (erase_first j m) ≡ count_ids j m - 1
unfolding erase_first
count_ids-erase_first j [] = refl
count_ids-erase_first j (e ∷ m) = elim (Bool-cases (e.1 == j)) [
  | inl h ↦ rw h (omega arith)
  | inr h ↦ rw (h, h) (count_ids-erase_first j m)
]

count_ids-erase_first_ne :
    (i j : ℕ) (m : Map ℕ) → i ≢ j → count_ids i (erase_first j m) ≡ count_ids i m
unfolding erase_first
count_ids-erase_first_ne i j [] n = refl
count_ids-erase_first_ne i j (e ∷ m) n = elim (Bool-cases (e.1 == j)) [
  | inl h ↦ let other : (e.1 == i) ≡ false = ground (arith, h, n) in rw (h, other) refl
  | inr h ↦ rw h (ap (λ x. if e.1 == i then 1 + x else x) (count_ids-erase_first_ne i j m n))
]

drop-id_in :
    (reg : Registry) (j : ℕ) (c : SyncConnection) → (drop reg j c).id_in ≡ erase_first j c.id_in
unfolding drop
drop-id_in reg j c = elim (Bool-cases (has_id j c.id_in || contains j c.stores)) [
  | inl h ↦ rw h refl
  | inr h ↦ rw h refl
]

id_counts-drop_all :
    (reg : Registry) (j : ℕ) (cs : Map SyncConnection)
    → id_counts j (drop_all reg j cs) ≡ map (λ n. n - 1) (id_counts j cs)
unfolding drop_all
id_counts-drop_all reg j [] = refl
id_counts-drop_all reg j ((k, c) ∷ cs) =
    ap₂ (λ n ns. n ∷ ns) (ap (count_ids j) (drop-id_in reg j c) ∙ count_ids-erase_first j c.id_in)
      (id_counts-drop_all reg j cs)

id_counts-drop_all_ne :
    (reg : Registry) (i j : ℕ) (cs : Map SyncConnection)
    → i ≢ j
    → id_counts i (drop_all reg j cs) ≡ id_counts i cs
unfolding drop_all
id_counts-drop_all_ne reg i j [] n = refl
id_counts-drop_all_ne reg i j ((k, c) ∷ cs) n =
    ap₂ (λ x xs. x ∷ xs)
      (ap (count_ids i) (drop-id_in reg j c) ∙ count_ids-erase_first_ne i j c.id_in n)
      (id_counts-drop_all_ne reg i j cs n)

-- After `unmap` of a store no connection synchronizes it any more, and its hash is unknown. Of the
-- ids that it had in a connection, one is erased: a connection that had none or one has none left,
-- and one that had two ids still has one. Another store has as many ids as before.
pub unmap_store-forgets :
    (i j : ℕ) (s : Synchronizer)
    → i ≢ j
    → let after = (unmap_store j s).connections in
      (is_synchronizing j after ≡ false)
      × (to_journal (unmap_store j s).registry (s.registry.hash j) ≡ none)
      × (id_counts j after ≡ map (λ n. n - 1) (id_counts j s.connections))
      × (id_counts i after ≡ id_counts i s.connections)
unfolding unmap_store to_journal
unmap_store-forgets i j s n = (
  drop_all-is_synchronizing _ j s.connections,
  find_hash-erase_hash (s.registry.hash j) s.registry.store_map,
  id_counts-drop_all _ j s.connections,
  id_counts-drop_all_ne _ i j s.connections n,
)
