-- ===== src/Synchronizer/Connection/Valid/Steps.antt =====
-- Each message that SyncConnection (src/synchronizer.cpp) receives leaves it valid.
use libstored.Prelude.{
  ℕ, zero, suc, ◌≡◌, refl, sym, ap, ◌∙◌, Bool, true, false, not, ◌&&◌, [], ◌∷◌, Option, none, some,
  arith, length, Bool-cases, inl, inr,
}
use libstored.Prelude.{◌==◌, if◌then◌else◌, ◌≤◌}
use mathlib.Core.Path.{subst}
use libstored.Protocol.{Bytes}
use libstored.Synchronizer.StoreJournal.Message.{decode_hash}
use libstored.Synchronizer.Map.{Map, find, find_or, find-set_self}
use libstored.Synchronizer.Connection.{
  StoreInfo, no_info, SyncConnection, Registry, Outcome, running, assertion_fails, unfinished,
  past_end, assert_that, ◌>>=◌, to_journal, decode_id,
}
use libstored.Synchronizer.Connection.Drop.{has_id, drop_non_sources}
use libstored.Synchronizer.Connection.Messages.{
  id_of, hello_entry, hello_again, hello_again_all, reset,
}
use libstored.Synchronizer.Connection.Receive.{bye_of_id, bye_of_hash, decode_bye}
use libstored.Synchronizer.Connection.HelloAgain.{body}
use libstored.Synchronizer.Connection.Ids.{id_of-has_id}
use libstored.Synchronizer.Connection.Valid.{IsValid, send-IsValid, enter-IsValid}
use libstored.Synchronizer.Connection.Valid.Erase.{
  drop_non_sources-IsValid, erase_store-IsValid, erase_out-IsValid,
}

-- No assertion of the connection fails, and a connection that is returned is valid.
abbrev pub IsSafe : Outcome SyncConnection → Type 0
IsSafe (running c) = IsValid c
IsSafe assertion_fails = 1 ≤ 0
IsSafe unfinished = Unit
IsSafe past_end = 1 ≤ 0

IsSafe-bind :
    (m : Outcome SyncConnection) (f : SyncConnection → Outcome SyncConnection)
    → ((c : SyncConnection) → IsValid c → IsSafe (f c))
    → IsSafe m
    → IsSafe (m >>= f)
IsSafe-bind (running c) f h k = h c k
IsSafe-bind assertion_fails f h k = k
IsSafe-bind unfinished f h k = tt
IsSafe-bind past_end f h k = k

IsSafe-assert_that :
    (ok : Bool) (c : SyncConnection) → ok ≡ true → IsValid c → IsSafe (assert_that ok c)
IsSafe-assert_that true c h v = v
IsSafe-assert_that false c h v = absurd (ground (arith, h))

abbrev or_new : Option StoreInfo → StoreInfo
or_new none = no_info
or_new (some info) = info

-- `m_store[j]` has an id where its source is the connection.
pub find_or-has_id :
    (j : ℕ) (c : SyncConnection)
    → IsValid c
    → (find_or no_info j c.stores).source ≡ true
    → has_id j c.id_in ≡ true
find_or-has_id j c v = go (find j c.stores) refl
  where
    go :
        (o : Option StoreInfo)
        → find j c.stores ≡ o
        → (or_new o).source ≡ true
        → has_id j c.id_in ≡ true
    go none e h = absurd (ground (arith, h))
    go (some info) e h = v.have_ids j info e h

module _ (reg : Registry) where
  hello_again-IsSafe :
      (j : ℕ) (info : StoreInfo) (c : SyncConnection)
      → IsValid c
      → find j c.stores ≡ some info
      → info.source ≡ true
      → IsSafe (hello_again reg j c)
  unfolding hello_again hello_entry
  hello_again-IsSafe j info c v found src =
      let known = v.have_ids j info found src in
      let some_id : not (id_of j c.id_in == 0) ≡ true =
        ap not (id_of-has_id j c.id_in v.nonzero known) in
      subst (λ o. IsSafe (hello_entry reg j o c)) (sym found)
        (IsSafe-assert_that (not (id_of j c.id_in == 0)) _ some_id
          (send-IsValid _ _ (enter-IsValid j (record info { id_out = 0 }) c v (λ s. known))))

  hello_again_all-IsSafe :
      (fuel : ℕ) (c : SyncConnection) → IsValid c → IsSafe (hello_again_all reg fuel c)
  unfolding hello_again_all
  hello_again_all-IsSafe zero c v = tt
  hello_again_all-IsSafe (suc fuel) c v = go c.stores refl (hello_again_all-IsSafe fuel)
    where
      go :
          (m : Map StoreInfo)
          → c.stores ≡ m
          → ((c : SyncConnection) → IsValid c → IsSafe (hello_again_all reg fuel c))
          → IsSafe (body reg fuel c m)
      go [] e rest_safe = v
      go ((j, info) ∷ rest) e rest_safe =
          IsSafe-bind (if info.source then hello_again reg j c else running c)
            (hello_again_all reg fuel) rest_safe
            (elim (Bool-cases info.source) [
              | inl s ↦ rw s (hello_again-IsSafe j info c v (ap (find j) e ∙ ground arith) s)
              | inr s ↦ rw s v
            ])

  -- `reset` of a valid connection, with whatever rounds the loop of `helloAgain` gets.
  pub reset-IsSafe : (fuel : ℕ) (c : SyncConnection) → IsValid c → IsSafe (reset reg fuel c)
  unfolding reset
  reset-IsSafe fuel c v =
      hello_again_all-IsSafe fuel _ (drop_non_sources-IsValid _ (send-IsValid _ c v))

  bye_of_id-IsSafe :
      (id : ℕ) (o : Option ℕ) (c : SyncConnection) → IsValid c → IsSafe (bye_of_id reg id o c)
  unfolding bye_of_id
  bye_of_id-IsSafe id none c v = v
  bye_of_id-IsSafe id (some j) c v =
      let info = find_or no_info j c.stores in
      let v' = enter-IsValid j info c v (find_or-has_id j c v) in
      elim (Bool-cases (info.source && not (info.id_out == 0))) [
        | inl s ↦
            rw s
              (hello_again-IsSafe j info _ v' (find-set_self j info c.stores) (ground (arith, s)))
        | inr s ↦ rw s (erase_out-IsValid id _ v')
      ]

  bye_of_hash-IsSafe :
      (hash : Bytes) (j : ℕ) (c : SyncConnection)
      → IsValid c
      → IsSafe (bye_of_hash reg hash j (find j c.stores) c)
  unfolding bye_of_hash
  bye_of_hash-IsSafe hash j c v = go (find j c.stores) refl
    where
      go : (o : Option StoreInfo) → find j c.stores ≡ o → IsSafe (bye_of_hash reg hash j o c)
      go none e = v
      go (some info) e = elim (Bool-cases (info.source && not (info.id_out == 0))) [
        | inl s ↦ rw s (hello_again-IsSafe j info c v e (ground (arith, s)))
        | inr s ↦ rw s (erase_store-IsValid reg hash c v)
      ]

  -- Whatever a Bye has, and whatever rounds the loop of `helloAgain` gets: the assertion of
  -- `helloAgain` does not fail in a valid connection, which is valid again where `decode` returns.
  pub decode_bye-IsSafe :
      (fuel : ℕ) (buffer : Bytes) (c : SyncConnection)
      → IsValid c
      → IsSafe (decode_bye reg fuel buffer c)
  unfolding decode_bye
  decode_bye-IsSafe fuel buffer c v = elim (Bool-cases (length buffer == 0)) [
    | inl a ↦ rw a (hello_again_all-IsSafe fuel (drop_non_sources c) (drop_non_sources-IsValid c v))
    | inr a ↦ elim (Bool-cases (length buffer == 2)) [
      | inl b ↦
          let id = (decode_id reg.little buffer).0 in
          elim (Bool-cases (id == 0)) [
            | inl n ↦ rw (a, b, n) v
            | inr n ↦ rw (a, b, n) (bye_of_id-IsSafe id (find id c.id_in) c v)
          ]
      | inr b ↦ rw (a, b) (by_hash (decode_hash buffer).0 (to_journal reg (decode_hash buffer).0))
    ]
  ]
    where
      by_hash :
          (hash : Bytes) (o : Option ℕ)
          → IsSafe
              (elim o [ none ↦ running c | some j ↦ bye_of_hash reg hash j (find j c.stores) c ])
      by_hash hash none = v
      by_hash hash (some j) = bye_of_hash-IsSafe hash j c v
