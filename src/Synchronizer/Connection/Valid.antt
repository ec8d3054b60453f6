-- ===== src/Synchronizer/Connection/Valid.antt =====
-- SyncConnection (src/synchronizer.cpp) keeps an id for every store of which it is the source, so
-- that the assertion in helloAgain does not fail.
pub mod Erase
pub mod Source
pub mod Steps
pub mod Decode
pub mod Reach
use libstored.Prelude.{
  ℕ, ◌≡◌, refl, sym, ap, ◌∙◌, ◌≢◌, Bool, true, false, not, ◌||◌, List, [], ◌∷◌, ◌++◌, Option, none,
  some, All, All-map, arith, Bool-cases, inl, inr,
}
use libstored.Prelude.{◌==◌, if◌then◌else◌, ◌+◌, ◌%◌, ◌^◌, ◌<◌}
use mathlib.Core.Path.{subst}
use libstored.Protocol.{Bytes, Chunk}
use libstored.Synchronizer.Map.{
  Map, find, find_or, set, contains, erase_if, find-set_self, find-set_ne,
}
use libstored.Synchronizer.Map
use libstored.Synchronizer.Map.Sorted.{
  Sorted, Sorted-set, Sorted-erase_if, All-set, All-erase_if, find-erase_if, All-found,
}
use libstored.Synchronizer.Connection.{
  StoreInfo, no_info, SyncConnection, Registry, connected, send, to_journal,
}
use libstored.Synchronizer.Connection.Drop.{
  has_id, drop_non_sources, erase_in, erase_out, drop, bye_all, erase_store, bye_hash, bye_id,
  erase_first, erase_ids, erase_ids_out,
}
use libstored.Synchronizer.Connection.NextId.{Fresh}
use libstored.Synchronizer.Connection.Ids.{
  has_id-set_self, has_id-set, has_id-erase_first, has_id-erase_if, has_id-erase_ids,
  has_id-erase_ids_out,
}

-- Every store whose source is the connection has an id.
abbrev pub HaveIds : Map StoreInfo → Map ℕ → Type 0
HaveIds stores ids =
    (j : ℕ) (info : StoreInfo)
    → find j stores ≡ some info
    → info.source ≡ true
    → has_id j ids ≡ true

-- The maps are in order, no id is 0, and sources have ids.
pub record IsValid (c : SyncConnection) : Type 0 where
  pub stores : Sorted c.stores
  pub ids : Sorted c.id_in
  pub nonzero : All (λ e. 0 < e.0) c.id_in
  pub next : c.id_in_next < 2 ^ 16
  pub have_ids : HaveIds c.stores c.id_in

pub connected-IsValid : IsValid connected
unfolding connected
connected-IsValid = record {
  stores = tt;
  ids = tt;
  nonzero = tt;
  next = omega arith;
  have_ids = λ j info h. absurd (ground (arith, h));
}

pub send-IsValid : (chunks : List Chunk) (c : SyncConnection) → IsValid c → IsValid (send chunks c)
unfolding send
send-IsValid chunks c v = record {
  stores = v.stores;
  ids = v.ids;
  nonzero = v.nonzero;
  next = v.next;
  have_ids = v.have_ids;
}

abbrev source_of : Option StoreInfo → Bool
source_of none = false
source_of (some info) = info.source

-- An entry of m_store is set.
pub enter-IsValid :
    (j : ℕ) (info : StoreInfo) (c : SyncConnection)
    → IsValid c
    → (info.source ≡ true → has_id j c.id_in ≡ true)
    → IsValid (record c { stores = set j info c.stores })
enter-IsValid j info c v h = record {
  stores = Sorted-set j info c.stores v.stores;
  ids = v.ids;
  nonzero = v.nonzero;
  next = v.next;
  have_ids = λ k info' found src. elim (Bool-cases (k == j)) [
    | inl e ↦
        let here : k ≡ j = ground (arith, e) in
        let this : some info ≡ some info' =
          sym (find-set_self j info c.stores)
          ∙ ap (λ i. find i (set j info c.stores)) (sym here)
          ∙ found in
        ap (λ i. has_id i c.id_in) here ∙ h (ap source_of this ∙ src)
    | inr e ↦
        v.have_ids k info' (sym (find-set_ne k j info c.stores (ground (arith, e))) ∙ found) src
  ];
}

-- Messages are sent.
pub sent-IsValid :
    (chunks : List Chunk) (c : SyncConnection) → IsValid c → IsValid (record c { sent = chunks })
sent-IsValid chunks c v = record {
  stores = v.stores;
  ids = v.ids;
  nonzero = v.nonzero;
  next = v.next;
  have_ids = v.have_ids;
}

-- An id that is not in use is set.
pub identify-IsValid :
    (id j : ℕ) (c : SyncConnection)
    → IsValid c
    → Fresh c.id_in id
    → IsValid (record c { id_in = set id j c.id_in; id_in_next = (id + 1) % 2 ^ 16 })
identify-IsValid id j c v f = record {
  stores = v.stores;
  ids = Sorted-set id j c.id_in v.ids;
  nonzero = All-set (λ e. 0 < e.0) id j c.id_in f.nonzero v.nonzero;
  next = omega arith;
  have_ids = λ k info found src. has_id-set k id j c.id_in f.unused (v.have_ids k info found src);
}
