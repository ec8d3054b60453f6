-- ===== src/Synchronizer/Connection/Valid/Decode.antt =====
-- decode and process of SyncConnection (src/synchronizer.cpp) leave it valid.
use libstored.Prelude.{
  ℕ, ◌≡◌, refl, sym, Bool, true, false, List, Option, none, some, arith, length, Bool-cases, inl,
  inr,
}
use libstored.Prelude.{◌==◌, ◌+◌, ◌%◌, ◌^◌, ltb}
use mathlib.Core.Path.{subst}
use libstored.Protocol.{Bytes}
use libstored.Synchronizer.Journal.{ObjectInfo}
use libstored.Synchronizer.StoreJournal.{StoreJournal, bump_seq, any_changed}
use libstored.Synchronizer.StoreJournal.Message.{
  Decoded, applied, failed, overrun, out_of_fuel, decode_hash, decode_buffer, decode_updates,
}
use libstored.Synchronizer.Map.{find, find_or, contains}
use libstored.Synchronizer.Connection.{
  StoreInfo, no_info, SyncConnection, Registry, Outcome, running, assertion_fails, unfinished,
  past_end, assert_that, ◌>>=◌, to_journal, next_id, decode_id, decode_cmd, command_of, Command,
}
use libstored.Synchronizer.Connection.Messages.{Heap, process, process_entry}
use libstored.Synchronizer.Connection.Receive.{
  answer_hello, decode_hello, enter_welcome, accept_welcome, decode_welcome, decode_bye,
  enter_updates, receive_updates, update_of_id, decode_update, decode,
}
use libstored.Synchronizer.Connection.NextId.{Fresh, next_id-Fresh, next_id_full}
use libstored.Synchronizer.Connection.Handshake.{answering, answer_hello_known, welcomed}
use libstored.Synchronizer.Connection.Flow.{updated, send_updates_changed, send_updates_same}
use libstored.Synchronizer.Connection.Valid.{IsValid, sent-IsValid, enter-IsValid, identify-IsValid}
use libstored.Synchronizer.Connection.Valid.Erase.{bye_hash-IsValid, bye_id-IsValid}
use libstored.Synchronizer.Connection.Valid.Steps.{IsSafe, find_or-has_id, decode_bye-IsSafe}

-- A connection that is returned is valid.
abbrev pub Keeps : Outcome (SyncConnection × Heap) → Type 0
Keeps (running (c, heap)) = IsValid c
Keeps assertion_fails = Unit
Keeps unfinished = Unit
Keeps past_end = Unit

Keeps-assert_that :
    (ok : Bool) (c : SyncConnection) (heap : Heap)
    → (ok ≡ true → IsValid c)
    → Keeps (assert_that ok (c, heap))
Keeps-assert_that true c heap h = h refl
Keeps-assert_that false c heap h = tt

module _ (reg : Registry) where
  welcomed-IsValid :
      (j id id_in : ℕ) (journal : StoreJournal) (c : SyncConnection)
      → IsValid c
      → Fresh c.id_in id_in
      → IsValid (welcomed reg j id id_in journal c)
  welcomed-IsValid j id id_in journal c v f =
      sent-IsValid (welcomed reg j id id_in journal c).sent _ (
        enter-IsValid j (record { seq = (bump_seq false journal).seq; id_out = id; source = false })
          _ (identify-IsValid id_in j c v f) (λ s. absurd (ground (arith, s))))

  answer_hello_full :
      (hash : Bytes) (j id : ℕ) (c : SyncConnection) (heap : Heap)
      → next_id (answering reg id c) ≡ assertion_fails
      → answer_hello reg hash id (some j) c heap ≡ assertion_fails
  unfolding answer_hello
  answer_hello_full hash j id c heap h = rw (answer_hello, h) refl

  answer_hello-Keeps :
      (hash : Bytes) (id : ℕ) (o : Option ℕ) (c : SyncConnection) (heap : Heap)
      → IsValid c
      → Keeps (answer_hello reg hash id o c heap)
  unfolding answer_hello
  answer_hello-Keeps hash id none c heap v = bye_hash-IsValid reg hash c v
  answer_hello-Keeps hash id (some j) c heap v = elim (Bool-cases (ltb (length c.id_in) 32767)) [
    | inl few ↦
        let (id_in, (run, fresh)) =
          next_id-Fresh (answering reg id c) (ground (arith, few), v.next) in
        subst Keeps (sym (answer_hello_known reg hash j id id_in ((id_in + 1) % 2 ^ 16) c heap run))
          (welcomed-IsValid j id id_in (heap j) c v fresh)
    | inr many ↦
        subst Keeps
          (sym (
            answer_hello_full hash j id c heap
              (next_id_full (answering reg id c) (ground (arith, many)))))
          tt
  ]

  decode_hello-Keeps :
      (buffer : Bytes) (c : SyncConnection) (heap : Heap)
      → IsValid c
      → Keeps (decode_hello reg buffer c heap)
  unfolding decode_hello
  decode_hello-Keeps buffer c heap v =
      let hash = (decode_hash buffer).0 in
      let id = (decode_id reg.little (decode_hash buffer).1).0 in
      elim (Bool-cases (id == 0)) [
        | inl z ↦ rw z v
        | inr z ↦ rw z (answer_hello-Keeps hash id (to_journal reg hash) c heap v)
      ]

  enter_welcome-Keeps :
      (id welcome_id j : ℕ) (r : StoreJournal × Bytes × ℕ) (c : SyncConnection) (heap : Heap)
      → IsValid c
      → Keeps (enter_welcome reg id welcome_id j r c heap)
  unfolding enter_welcome
  enter_welcome-Keeps id welcome_id j (journal, left, seq) c heap v =
      let info = find_or no_info j c.stores in
      elim (Bool-cases (seq == 0)) [
        | inl z ↦ rw z (bye_id-IsValid reg id c v)
        | inr z ↦ rw z (
            Keeps-assert_that info.source _ _ (λ s.
              enter-IsValid j (record info { seq = seq; id_out = welcome_id }) c v
                (find_or-has_id j c v)))
      ]

  accept_welcome-Keeps :
      (id welcome_id : ℕ) (buffer : Bytes) (o : Option ℕ) (c : SyncConnection) (heap : Heap)
      → IsValid c
      → Keeps (accept_welcome reg id welcome_id buffer o c heap)
  unfolding accept_welcome
  accept_welcome-Keeps id welcome_id buffer none c heap v = bye_id-IsValid reg id c v
  accept_welcome-Keeps id welcome_id buffer (some j) c heap v =
      elim (Bool-cases (welcome_id == 0)) [
        | inl z ↦ rw z (bye_id-IsValid reg id c v)
        | inr z ↦
            rw z (enter_welcome-Keeps id welcome_id j (decode_buffer buffer (heap j)) c heap v)
      ]

  decode_welcome-Keeps :
      (buffer : Bytes) (c : SyncConnection) (heap : Heap)
      → IsValid c
      → Keeps (decode_welcome reg buffer c heap)
  unfolding decode_welcome
  decode_welcome-Keeps buffer c heap v =
      let first = decode_id reg.little buffer in
      let second = decode_id reg.little first.1 in
      elim (Bool-cases (first.0 == 0)) [
        | inl z ↦ rw z v
        | inr z ↦
            rw z (accept_welcome-Keeps first.0 second.0 second.1 (find first.0 c.id_in) c heap v)
      ]

  -- `process` of a journal leaves a connection valid.
  pub process-IsValid :
      (j : ℕ) (c : SyncConnection) (heap : Heap) → IsValid c → IsValid (process reg j c heap).1
  unfolding process process_entry
  process-IsValid j c heap v = go (find j c.stores) refl
    where
      go : (o : Option StoreInfo) → find j c.stores ≡ o → IsValid (process_entry reg j o c heap).1
      go none e = v
      go (some info) e = elim (Bool-cases (any_changed info.seq (heap j))) [
        | inl h ↦
            subst (λ (r : ℕ × SyncConnection × Heap). IsValid r.1)
              (sym (send_updates_changed reg j info c heap h))
              (sent-IsValid (updated reg j info (heap j) c).sent _ (
                enter-IsValid j (record info { seq = (bump_seq false (heap j)).seq }) c v
                  (v.have_ids j info e)))
        | inr h ↦
            subst (λ (r : ℕ × SyncConnection × Heap). IsValid r.1)
              (sym (send_updates_same reg j info c heap h)) v
      ]

  enter_updates-Keeps :
      (id j : ℕ) (d : Decoded) (c : SyncConnection) (heap : Heap)
      → IsValid c
      → Keeps (enter_updates reg id j d c heap)
  unfolding enter_updates
  enter_updates-Keeps id j (applied journal seq) c heap v =
      let info = find_or no_info j c.stores in
      elim (Bool-cases (seq == 0)) [
        | inl z ↦ rw z (bye_id-IsValid reg id c v)
        | inr z ↦ rw z (
            Keeps-assert_that (contains j c.stores) _ _
              (λ s. enter-IsValid j (record info { seq = seq }) c v (find_or-has_id j c v)))
      ]
  enter_updates-Keeps id j (failed journal left) c heap v = bye_id-IsValid reg id c v
  enter_updates-Keeps id j overrun c heap v = tt
  enter_updates-Keeps id j out_of_fuel c heap v = tt

  module _ (sort : List ObjectInfo → List ObjectInfo) (elsewhere : ℕ → Bool) where
    update_of_id-Keeps :
        (id : ℕ) (o : Option ℕ) (buffer : Bytes) (c : SyncConnection) (heap : Heap)
        → IsValid c
        → Keeps (update_of_id reg sort elsewhere id o buffer c heap)
    unfolding update_of_id receive_updates
    update_of_id-Keeps id none buffer c heap v = bye_id-IsValid reg id c v
    update_of_id-Keeps id (some j) buffer c heap v =
        enter_updates-Keeps id j
          (decode_updates sort (length buffer) (elsewhere j) buffer ((process reg j c heap).2 j))
          (process reg j c heap).1 (process reg j c heap).2 (process-IsValid j c heap v)

    decode_update-Keeps :
        (buffer : Bytes) (c : SyncConnection) (heap : Heap)
        → IsValid c
        → Keeps (decode_update reg sort elsewhere buffer c heap)
    unfolding decode_update
    decode_update-Keeps buffer c heap v =
        let first = decode_id reg.little buffer in
        elim (Bool-cases (first.0 == 0)) [
          | inl z ↦ rw z v
          | inr z ↦ rw z (update_of_id-Keeps first.0 (find first.0 c.id_in) first.1 c heap v)
        ]

    returned-Keeps :
        (o : Outcome SyncConnection) (heap : Heap)
        → IsSafe o
        → Keeps (◌>>=◌ {B = SyncConnection × Heap} o (λ c. running (c, heap)))
    returned-Keeps (running c) heap h = h
    returned-Keeps assertion_fails heap h = tt
    returned-Keeps unfinished heap h = tt
    returned-Keeps past_end heap h = tt

    -- Whatever message a valid connection receives: it is valid again where `decode` returns.
    pub decode-Keeps :
        (fuel : ℕ) (bytes : Bytes) (c : SyncConnection) (heap : Heap)
        → IsValid c
        → Keeps (decode reg sort elsewhere fuel bytes c heap)
    unfolding decode
    decode-Keeps fuel bytes c heap v = go (command_of reg.little (decode_cmd bytes).0)
      where
        go :
            (o : Option Command)
            → Keeps (elim o [
              | none ↦ running (c, heap)
              | some Command.hello ↦ decode_hello reg (decode_cmd bytes).1 c heap
              | some Command.welcome ↦ decode_welcome reg (decode_cmd bytes).1 c heap
              | some Command.update ↦ decode_update reg sort elsewhere (decode_cmd bytes).1 c heap
              | some Command.bye ↦
                  ◌>>=◌ {B = SyncConnection × Heap}
                    (decode_bye reg fuel (decode_cmd bytes).1 c)
                    (λ c'. running (c', heap))
            ])
        go none = v
        go (some Command.hello) = decode_hello-Keeps (decode_cmd bytes).1 c heap v
        go (some Command.welcome) = decode_welcome-Keeps (decode_cmd bytes).1 c heap v
        go (some Command.update) = decode_update-Keeps (decode_cmd bytes).1 c heap v
        go (some Command.bye) =
            returned-Keeps (decode_bye reg fuel (decode_cmd bytes).1 c) heap
              (decode_bye-IsSafe reg fuel (decode_cmd bytes).1 c v)
