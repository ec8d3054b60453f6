-- ===== src/Synchronizer/Connection/Valid/Source.antt =====
-- source of SyncConnection (src/synchronizer.cpp) leaves it valid.
use libstored.Prelude.{
  ℕ, ◌≡◌, refl, sym, ap, ◌∙◌, Bool, true, false, Option, none, some, arith, length, Bool-cases, inl,
  inr,
}
use libstored.Prelude.{ltb}
use mathlib.Core.Path.{subst}
use libstored.Synchronizer.Map.{find}
use libstored.Synchronizer.Connection.{
  StoreInfo, no_info, SyncConnection, Registry, Outcome, running, assertion_fails, unfinished,
  past_end, assert_that, send, next_id,
}
use libstored.Synchronizer.Connection.Messages.{source}
use libstored.Synchronizer.Connection.NextId.{Fresh, next_id_full}
use libstored.Synchronizer.Connection.Ids.{has_id-set_self}
use libstored.Synchronizer.Connection.Handshake.{greeted, sourced, source-sourced}
use libstored.Synchronizer.Connection.Valid.{IsValid, sent-IsValid, enter-IsValid, identify-IsValid}

abbrev returned_or : SyncConnection → Outcome SyncConnection → SyncConnection
returned_or c (running c') = c'
returned_or c assertion_fails = c
returned_or c unfinished = c
returned_or c past_end = c

running_of : (a b : SyncConnection) → running a ≡ running b → a ≡ b
running_of a b e = ap (returned_or a) e

assert_that_returns : (ok : Bool) (c c' : SyncConnection) → running c' ≡ assert_that ok c → c' ≡ c
assert_that_returns true c c' e = running_of c' c e
assert_that_returns false c c' e = absurd (ground (arith, e))

module _ (reg : Registry) where
  source_full :
      (j : ℕ) (c : SyncConnection)
      → find j c.stores ≡ none
      → next_id (greeted reg j c) ≡ assertion_fails
      → source reg j c ≡ assertion_fails
  unfolding source
  source_full j c new h = rw (source, new, h) refl

  source_again :
      (j : ℕ) (info : StoreInfo) (c : SyncConnection)
      → find j c.stores ≡ some info
      → source reg j c ≡ assert_that info.source c
  unfolding source
  source_again j info c h = rw (source, h) refl

  sourced-IsValid :
      (j id : ℕ) (c : SyncConnection) → IsValid c → Fresh c.id_in id → IsValid (sourced reg j id c)
  sourced-IsValid j id c v f = sent-IsValid (sourced reg j id c).sent _ (
      enter-IsValid j (record no_info { source = true }) _ (identify-IsValid id j c v f)
        (λ s. has_id-set_self id j c.id_in))

  -- `source` of a journal leaves a connection valid where it returns.
  pub source-IsValid :
      (j : ℕ) (c c' : SyncConnection) → IsValid c → source reg j c ≡ running c' → IsValid c'
  unfolding send
  source-IsValid j c c' v = go (find j c.stores) refl
    where
      go : (o : Option StoreInfo) → find j c.stores ≡ o → source reg j c ≡ running c' → IsValid c'
      go (some info) e run =
          subst IsValid
            (sym (assert_that_returns info.source c c' (sym run ∙ source_again j info c e))) v
      go none e run = elim (Bool-cases (ltb (length c.id_in) 32767)) [
        | inl few ↦
            let (id, (done, fresh)) = source-sourced reg j c e (ground (arith, few), v.next) in
            subst IsValid (running_of (sourced reg j id c) c' (sym done ∙ run))
              (sourced-IsValid j id c v fresh)
        | inr many ↦ absurd (
            ground (
              arith,
              sym run ∙ source_full j c e (next_id_full (greeted reg j c) (ground (arith, many))),
            ))
      ]
