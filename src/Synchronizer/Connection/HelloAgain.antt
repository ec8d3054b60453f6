-- ===== src/Synchronizer/Connection/HelloAgain.antt =====
-- helloAgain of SyncConnection (src/synchronizer.cpp), of all sources: a Bye without a store, and
-- reset, call it.
use libstored.Prelude.{
  ℕ, zero, suc, ◌≡◌, refl, Bool, true, false, not, [], ◌∷◌, Option, none, some, is_empty, ap, ◌∙◌,
  arith, Bool-cases, inl, inr,
}
use libstored.Prelude.{◌==◌, if◌then◌else◌, ltb}
use libstored.Synchronizer.Map.{Map, find, set}
use libstored.Synchronizer.Connection.{
  StoreInfo, SyncConnection, Registry, Outcome, running, assertion_fails, unfinished, past_end,
  assert_that, ◌>>=◌,
}
use libstored.Synchronizer.Connection.Drop.{drop_non_sources}
use libstored.Synchronizer.Connection.Messages.{hello_entry, hello_again, hello_again_all, id_of}
use libstored.Synchronizer.Connection.Receive.{decode_bye}

abbrev pub is_running : {A : Type 0} → Outcome A → Bool
is_running (running a) = true
is_running assertion_fails = false
is_running unfinished = false
is_running past_end = false

-- A connection that it returns has stores.
abbrev HasStores : Outcome SyncConnection → Type 0
HasStores (running c) = is_empty c.stores ≡ false
HasStores assertion_fails = Unit
HasStores unfinished = Unit
HasStores past_end = Unit

set-is_empty : {V : Type 0} (k : ℕ) (v : V) (m : Map V) → is_empty (set k v m) ≡ false
set-is_empty k v [] = refl
set-is_empty k v (e ∷ m) = elim (Bool-cases (k == e.0)) [
  | inl h ↦ rw h refl
  | inr h ↦ elim (Bool-cases (ltb k e.0)) [ inl l ↦ rw (h, l) refl | inr l ↦ rw (h, l) refl ]
]

HasStores-assert_that :
    (ok : Bool) (c : SyncConnection) → is_empty c.stores ≡ false → HasStores (assert_that ok c)
HasStores-assert_that true c h = h
HasStores-assert_that false c h = tt

first_of :
    (m : Map StoreInfo)
    → is_empty m ≡ false
    → (j : ℕ) × ((info : StoreInfo) × ((rest : Map StoreInfo) × (m ≡ (j, info) ∷ rest)))
first_of [] h = absurd (ground (arith, h))
first_of ((j, info) ∷ rest) h = (j, (info, (rest, refl)))

module _ (reg : Registry) where
  HasStores-hello_entry :
      (j : ℕ) (info : Option StoreInfo) (c : SyncConnection)
      → is_empty c.stores ≡ false
      → HasStores (hello_entry reg j info c)
  unfolding hello_entry
  HasStores-hello_entry j none c h = h
  HasStores-hello_entry j (some info) c h =
      HasStores-assert_that (not (id_of j c.id_in == 0)) _
        (set-is_empty j (record info { id_out = 0 }) c.stores)

  -- A round of the loop, by the stores.
  abbrev pub body : ℕ → SyncConnection → Map StoreInfo → Outcome SyncConnection
  body fuel c [] = running c
  body fuel c ((j, info) ∷ rest) =
      (if info.source then hello_again reg j c else running c) >>= hello_again_all reg fuel

  round :
      (fuel j : ℕ) (info : StoreInfo) (rest : Map StoreInfo) (c : SyncConnection)
      → c.stores ≡ (j, info) ∷ rest
      → hello_again_all reg (suc fuel) c
        ≡ ((if info.source then hello_again reg j c else running c) >>= hello_again_all reg fuel)
  unfolding hello_again_all
  round fuel j info rest c h = ap (body fuel c) h

  HasStores-round :
      (source : Bool) (j : ℕ) (c : SyncConnection)
      → is_empty c.stores ≡ false
      → HasStores (if source then hello_again reg j c else running c)
  unfolding hello_again
  HasStores-round true j c h = HasStores-hello_entry j (find j c.stores) c h
  HasStores-round false j c h = h

  not_running :
      (m : Outcome SyncConnection) (f : SyncConnection → Outcome SyncConnection)
      → ((c : SyncConnection) → is_empty c.stores ≡ false → is_running (f c) ≡ false)
      → HasStores m
      → is_running (m >>= f) ≡ false
  not_running (running c) f h k = h c k
  not_running assertion_fails f h k = refl
  not_running unfinished f h k = refl
  not_running past_end f h k = refl

  hello_again_all_endless :
      (fuel : ℕ) (c : SyncConnection)
      → is_empty c.stores ≡ false
      → is_running (hello_again_all reg fuel c) ≡ false
  unfolding hello_again_all
  hello_again_all_endless zero c h = refl
  hello_again_all_endless (suc fuel) c h =
      let (j, (info, (rest, e))) = first_of c.stores h in
      ap is_running (round fuel j info rest c e)
      ∙ not_running (if info.source then hello_again reg j c else running c)
          (hello_again_all reg fuel) (hello_again_all_endless fuel)
          (HasStores-round info.source j c h)

  -- A Bye without a store never returns where a store with the connection as its source is
  -- synchronized: in no number of rounds is the loop of `helloAgain` done.
  pub decode_bye_endless :
      (fuel : ℕ) (c : SyncConnection)
      → is_empty (drop_non_sources c).stores ≡ false
      → is_running (decode_bye reg fuel [] c) ≡ false
  unfolding decode_bye
  decode_bye_endless fuel c h = hello_again_all_endless fuel (drop_non_sources c) h
