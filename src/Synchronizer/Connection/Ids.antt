-- ===== src/Synchronizer/Connection/Ids.antt =====
-- The ids of the journals in m_idIn of SyncConnection (src/synchronizer.cpp).
use libstored.Prelude.{
  ℕ, ◌≡◌, sym, ◌≢◌, Bool, true, false, [], ◌∷◌, All, arith, Bool-cases, inl, inr,
}
use libstored.Prelude.{◌==◌, ◌<◌}
use libstored.Synchronizer.Map.{Map, set, contains, erase_if}
use libstored.Synchronizer.Connection.{StoreInfo}
use libstored.Synchronizer.Connection.Drop.{erase_first, has_id, erase_ids, erase_ids_out}
use libstored.Synchronizer.Connection.Messages.{id_of}

pub has_id-set_self : (id j : ℕ) (m : Map ℕ) → has_id j (set id j m) ≡ true
unfolding has_id
has_id-set_self id j [] = ground arith
has_id-set_self id j (e ∷ m) = ground (arith, has_id-set_self id j m)

pub has_id-set :
    (k id j : ℕ) (m : Map ℕ)
    → contains id m ≡ false
    → has_id k m ≡ true
    → has_id k (set id j m) ≡ true
unfolding has_id
has_id-set k id j [] new h = absurd (ground (arith, h))
has_id-set k id j (e ∷ m) new h = ground (arith, has_id-set k id j m, new, h)

pub has_id-erase_first :
    (k j : ℕ) (m : Map ℕ) → k ≢ j → has_id k m ≡ true → has_id k (erase_first j m) ≡ true
unfolding has_id erase_first
has_id-erase_first k j [] n h = absurd (ground (arith, h))
has_id-erase_first k j (e ∷ m) n h = ground (arith, has_id-erase_first k j m n, n, h)

pub has_id-erase_if :
    (k : ℕ) (p : ℕ × ℕ → Bool) (m : Map ℕ)
    → All (λ e. p e ≡ true → e.1 ≢ k) m
    → has_id k m ≡ true
    → has_id k (erase_if p m) ≡ true
unfolding has_id
has_id-erase_if k p [] a h = absurd (ground (arith, h))
has_id-erase_if k p (e ∷ m) (first, a) h = elim (Bool-cases (p e)) [
  | inl q ↦ rw q (has_id-erase_if k p m a (ground (arith, h, first q)))
  | inr q ↦ rw q (elim (Bool-cases (e.1 == k)) [
    | inl r ↦ ground (arith, r)
    | inr r ↦ ground (arith, r, h, has_id-erase_if k p m a)
  ])
]

pub has_id-erase_ids :
    (k j : ℕ) (m : Map ℕ) → k ≢ j → has_id k m ≡ true → has_id k (erase_ids j m) ≡ true
unfolding erase_ids
has_id-erase_ids k j m n h = has_id-erase_if k (λ e. e.1 == j) m (others m) h
  where
    others : (m : Map ℕ) → All (λ e. (e.1 == j) ≡ true → e.1 ≢ k) m
    others [] = tt
    others (e ∷ m) = (λ q r. n (ground (arith, q, r)), others m)

pub has_id-erase_ids_out :
    (k id : ℕ) (stores : Map StoreInfo) (m : Map ℕ)
    → All (λ e. (e.1.id_out == id) ≡ true → e.0 ≢ k) stores
    → has_id k m ≡ true
    → has_id k (erase_ids_out id stores m) ≡ true
unfolding erase_ids_out
has_id-erase_ids_out k id [] m a h = h
has_id-erase_ids_out k id ((j, info) ∷ stores) m (first, a) h =
    has_id-erase_ids_out k id stores _ a (elim (Bool-cases (info.id_out == id)) [
      | inl q ↦ rw q (has_id-erase_ids k j m (λ e. first q (sym e)) h)
      | inr q ↦ rw q h
    ])

-- A journal that has an id has one that is not 0.
pub id_of-has_id :
    (j : ℕ) (m : Map ℕ) → All (λ e. 0 < e.0) m → has_id j m ≡ true → (id_of j m == 0) ≡ false
unfolding id_of has_id
id_of-has_id j [] a h = absurd (ground (arith, h))
id_of-has_id j (e ∷ m) (first, a) h = elim (Bool-cases (e.1 == j)) [
  | inl q ↦ rw q (ground (arith, first))
  | inr q ↦ rw q (id_of-has_id j m a (ground (arith, h, q)))
]
