-- ===== src/Synchronizer/Connection/Valid/Erase.antt =====
-- The operations of SyncConnection (src/synchronizer.cpp) that let go of stores leave it valid.
use libstored.Prelude.{
  ℕ, ◌≡◌, refl, sym, ◌∙◌, ◌≢◌, Bool, true, false, not, ◌||◌, [], ◌∷◌, Option, none, some, All,
  All-map, arith, Bool-cases, inl, inr,
}
use libstored.Prelude.{◌==◌, ◌<◌}
use libstored.Protocol.{Bytes}
use libstored.Synchronizer.Map.{
  Map, find, find_or, set, contains, erase_if, find-set_self, find-set_ne,
}
use libstored.Synchronizer.Map
use libstored.Synchronizer.Map.Sorted.{
  Sorted, Sorted-erase_if, All-erase_if, find-erase_if, All-found,
}
use libstored.Synchronizer.Connection.{StoreInfo, SyncConnection, Registry, to_journal}
use libstored.Synchronizer.Connection.Drop.{
  has_id, drop_non_sources, erase_in, erase_out, drop, bye_all, erase_store, bye_hash, bye_id,
  erase_first, erase_ids, erase_ids_out,
}
use libstored.Synchronizer.Connection.Ids.{
  has_id-erase_first, has_id-erase_if, has_id-erase_ids, has_id-erase_ids_out,
}
use libstored.Synchronizer.Connection.Valid.{IsValid, send-IsValid}

-- Entries of m_store and of m_idIn are erased: what is left has its ids still.
erase_IsValid :
    (p : ℕ × StoreInfo → Bool) (ids : Map ℕ) (c : SyncConnection)
    → IsValid c
    → Sorted ids
    → All (λ e. 0 < e.0) ids
    → ((k : ℕ) (info : StoreInfo)
        → find k c.stores ≡ some info
        → p (k, info) ≡ false
        → has_id k c.id_in ≡ true
        → has_id k ids ≡ true)
    → IsValid (record c { stores = erase_if p c.stores; id_in = ids })
erase_IsValid p ids c v sorted positive keep = record {
  stores = Sorted-erase_if p c.stores v.stores;
  ids = sorted;
  nonzero = positive;
  next = v.next;
  have_ids = λ k info found src.
      let (old, left) = find-erase_if p k info c.stores v.stores found in
      keep k info old left (v.have_ids k info old src);
}

pub drop_non_sources-IsValid : (c : SyncConnection) → IsValid c → IsValid (drop_non_sources c)
unfolding drop_non_sources
drop_non_sources-IsValid c v =
    erase_IsValid (λ e. not e.1.source) c.id_in c v v.ids v.nonzero (λ k info found left h. h)

differs : (k j : ℕ) → (k == j) ≡ false → k ≢ j
differs k j h e = absurd (ground (arith, h, e))

pub erase_store-IsValid :
    (reg : Registry) (hash : Bytes) (c : SyncConnection)
    → IsValid c
    → IsValid (erase_store reg hash c)
unfolding erase_store erase_ids
erase_store-IsValid reg hash c v =
    elim (to_journal reg hash)
      as (λ o. IsValid (elim o [
        | none ↦ c
        | some j ↦ record c { stores = Map.erase j c.stores; id_in = erase_ids j c.id_in }
      ])) [
        | none ↦ v
        | some j ↦
            erase_IsValid (λ e. e.0 == j) (erase_ids j c.id_in) c v
              (Sorted-erase_if (λ e. e.1 == j) c.id_in v.ids)
              (All-erase_if (λ e. 0 < e.0) (λ e. e.1 == j) c.id_in v.nonzero)
              (λ k info found left h. has_id-erase_ids k j c.id_in (differs k j left) h)
      ]

pub erase_in-IsValid : (id : ℕ) (c : SyncConnection) → IsValid c → IsValid (erase_in id c)
unfolding erase_in
erase_in-IsValid id c v = go (find id c.id_in) refl
  where
    after : Option ℕ → SyncConnection
    after none = c
    after (some j) = record c { stores = Map.erase j c.stores; id_in = Map.erase id c.id_in }

    go : (o : Option ℕ) → find id c.id_in ≡ o → IsValid (after o)
    go none found = v
    go (some j) found =
        erase_IsValid (λ e. e.0 == j) (Map.erase id c.id_in) c v
          (Sorted-erase_if (λ e. e.0 == id) c.id_in v.ids)
          (All-erase_if (λ e. 0 < e.0) (λ e. e.0 == id) c.id_in v.nonzero)
          (λ k info old left h.
            has_id-erase_if k (λ e. e.0 == id) c.id_in
              (All-map {P = λ (e : ℕ × ℕ). e.0 ≡ id → e.1 ≡ j}
                {Q = λ (e : ℕ × ℕ). (e.0 == id) ≡ true → e.1 ≢ k}
                (λ e one hit e_k. differs k j left (sym e_k ∙ one (ground (arith, hit)))) c.id_in
                (All-found (λ i. i ≡ j) id j c.id_in v.ids found refl))
              h)

erase_ids_out-All :
    (P : ℕ × ℕ → Type 0) (id : ℕ) (stores : Map StoreInfo) (m : Map ℕ)
    → All P m
    → All P (erase_ids_out id stores m)
unfolding erase_ids_out erase_ids
erase_ids_out-All P id [] m h = h
erase_ids_out-All P id ((j, info) ∷ stores) m h =
    erase_ids_out-All P id stores _ (elim (Bool-cases (info.id_out == id)) [
      | inl q ↦ rw q (All-erase_if P (λ e. e.1 == j) m h)
      | inr q ↦ rw q h
    ])

erase_ids_out-Sorted :
    (id : ℕ) (stores : Map StoreInfo) (m : Map ℕ) → Sorted m → Sorted (erase_ids_out id stores m)
unfolding erase_ids_out erase_ids
erase_ids_out-Sorted id [] m h = h
erase_ids_out-Sorted id ((j, info) ∷ stores) m h =
    erase_ids_out-Sorted id stores _ (elim (Bool-cases (info.id_out == id)) [
      | inl q ↦ rw q (Sorted-erase_if (λ e. e.1 == j) m h)
      | inr q ↦ rw q h
    ])

pub erase_out-IsValid : (id : ℕ) (c : SyncConnection) → IsValid c → IsValid (erase_out id c)
unfolding erase_out
erase_out-IsValid id c v =
    erase_IsValid (λ e. e.1.id_out == id) (erase_ids_out id c.stores c.id_in) c v
      (erase_ids_out-Sorted id c.stores c.id_in v.ids)
      (erase_ids_out-All (λ e. 0 < e.0) id c.stores c.id_in v.nonzero)
      (λ k info old left h.
        has_id-erase_ids_out k id c.stores c.id_in
          (All-map {P = λ (e : ℕ × StoreInfo). e.0 ≡ k → (e.1.id_out == id) ≡ false}
            {Q = λ (e : ℕ × StoreInfo). (e.1.id_out == id) ≡ true → e.0 ≢ k}
            (λ e one hit e_k. absurd (ground (arith, sym (one e_k) ∙ hit))) c.stores
            (All-found (λ i. (i.id_out == id) ≡ false) k info c.stores v.stores old left))
          h)

pub bye_hash-IsValid :
    (reg : Registry) (hash : Bytes) (c : SyncConnection) → IsValid c → IsValid (bye_hash reg hash c)
unfolding bye_hash
bye_hash-IsValid reg hash c v =
    send-IsValid _ (erase_store reg hash c) (erase_store-IsValid reg hash c v)

pub bye_id-IsValid :
    (reg : Registry) (id : ℕ) (c : SyncConnection) → IsValid c → IsValid (bye_id reg id c)
unfolding bye_id
bye_id-IsValid reg id c v = send-IsValid _ (erase_in id c) (erase_in-IsValid id c v)

erase_first-All : (P : ℕ × ℕ → Type 0) (j : ℕ) (m : Map ℕ) → All P m → All P (erase_first j m)
unfolding erase_first
erase_first-All P j [] h = tt
erase_first-All P j (e ∷ m) h = elim (Bool-cases (e.1 == j)) [
  | inl q ↦ rw q h.1
  | inr q ↦ rw q (h.0, erase_first-All P j m h.1)
]

erase_first-Sorted : (j : ℕ) (m : Map ℕ) → Sorted m → Sorted (erase_first j m)
unfolding erase_first
erase_first-Sorted j [] s = tt
erase_first-Sorted j (e ∷ m) s = elim (Bool-cases (e.1 == j)) [
  | inl q ↦ rw q s.1
  | inr q ↦ rw q (erase_first-All (λ x. e.0 < x.0) j m s.0, erase_first-Sorted j m s.1)
]

pub drop-IsValid :
    (reg : Registry) (j : ℕ) (c : SyncConnection) → IsValid c → IsValid (drop reg j c)
unfolding drop
drop-IsValid reg j c v =
    let left =
      erase_IsValid (λ e. e.0 == j) (erase_first j c.id_in) c v (erase_first-Sorted j c.id_in v.ids)
        (erase_first-All (λ e. 0 < e.0) j c.id_in v.nonzero)
        (λ k info found other h. has_id-erase_first k j c.id_in (differs k j other) h) in
    elim (Bool-cases (has_id j c.id_in || contains j c.stores)) [
      | inl h ↦ rw h (send-IsValid _ _ left)
      | inr h ↦ rw h left
    ]

pub bye_all-IsValid : (reg : Registry) (c : SyncConnection) → IsValid c → IsValid (bye_all reg c)
unfolding bye_all
bye_all-IsValid reg c v = record {
  stores = tt;
  ids = tt;
  nonzero = tt;
  next = v.next;
  have_ids = λ j info h. absurd (ground (arith, h));
}
