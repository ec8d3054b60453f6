-- ===== src/Synchronizer/Connection/Flow.antt =====
-- The updates that one SyncConnection (src/synchronizer.cpp) sends with process, and the other one
-- decodes.
use libstored.Prelude.{
  ℕ, ◌≡◌, refl, sym, ap, ◌∙◌, true, false, List, [], ◌∷◌, ◌++◌, append_assoc, append-nil, some, ◌⊎◌,
  inl, inr, arith, length, Bool-cases,
}
use libstored.Prelude.{◌==◌, ◌+◌, ◌^◌, ◌<◌, ◌≤◌}
use mathlib.Core.Path.{subst}
use libstored.Protocol.{Bytes, Chunk, frames}
use libstored.Synchronizer.StoreJournal.{StoreJournal, bump_seq, any_changed}
use libstored.Synchronizer.StoreJournal.Message.{applied, encode_range, encode_updates}
use libstored.Synchronizer.StoreJournal.Message.Copy.{bump_seq-buffer, bump_seq-kind}
use libstored.Synchronizer.StoreJournal.Message.Receive.{SameStore}
use libstored.Synchronizer.StoreJournal.Message.Seq.{bump_seq-seq}
use libstored.Synchronizer.Map.{find, set, find-set_self, find_or-found, contains-found}
use libstored.Synchronizer.Connection.{
  StoreInfo, no_info, SyncConnection, Registry, running, id_bytes, command_byte, update, encode_cmd,
  encode_id,
}
use libstored.Synchronizer.Connection.Messages.{
  Heap, put_journal, process, send_updates, process_entry,
}
use libstored.Synchronizer.Connection.Receive.{enter_updates}
use libstored.Synchronizer.Connection.Start.{put_journal_self}

unfoldable prepend : Bytes → List Bytes → List Bytes
prepend acc [] = []
prepend acc (f ∷ fs) = (acc ++ f) ∷ fs

frames-prefix :
    (acc more : Bytes) (cs : List Chunk) → frames (acc ++ more) cs ≡ prepend acc (frames more cs)
unfolding frames prepend
frames-prefix acc more [] = refl
frames-prefix acc more ((b, true) ∷ cs) = ap (λ f. f ∷ frames [] cs) (append_assoc acc more b)
frames-prefix acc more ((b, false) ∷ cs) =
    ap (λ p. frames p cs) (append_assoc acc more b) ∙ frames-prefix acc (more ++ b) cs

module _ (reg : Registry) where
  abbrev pub update_chunks : ℕ → List Chunk → List Chunk
  update_chunks id chunks =
      encode_cmd reg.little update false
      ++ (encode_id reg.little id false ++ (chunks ++ (([], true) ∷ [])))

  pub frames-update_chunks :
      (id since : ℕ) (bytes : Bytes) (j : StoreJournal)
      → frames [] (encode_updates since true j).0 ≡ bytes ∷ []
      → frames [] (update_chunks id (encode_updates since false j).0)
        ≡ (command_byte reg.little update ∷ (id_bytes reg.little id ++ bytes)) ∷ []
  unfolding frames encode_cmd encode_id encode_updates prepend
  frames-update_chunks id since bytes j h =
      let acc = command_byte reg.little update ∷ id_bytes reg.little id in
      let range = encode_range j (length j.changes) since j.changes in
      ap (λ r. frames acc (r ++ (([], true) ∷ []))) (append-nil range)
      ∙ ap (λ a. frames a (range ++ (([], true) ∷ []))) (sym (append-nil acc))
      ∙ frames-prefix acc [] (range ++ (([], true) ∷ []))
      ∙ ap (prepend acc) h

  -- The connection behind `process`, where there are changes.
  abbrev pub updated : ℕ → StoreInfo → StoreJournal → SyncConnection → SyncConnection
  updated j info journal c = record c {
    stores = set j (record info { seq = (bump_seq false journal).seq }) c.stores;
    sent = c.sent ++ update_chunks info.id_out (encode_updates info.seq false journal).0;
  }

  pub send_updates_changed :
      (j : ℕ) (info : StoreInfo) (c : SyncConnection) (heap : Heap)
      → any_changed info.seq (heap j) ≡ true
      → send_updates reg j info c heap ≡ (
        (bump_seq false (heap j)).seq,
        updated j info (heap j) c,
        put_journal j (bump_seq false (heap j)) heap,
      )
  unfolding send_updates
  send_updates_changed j info c heap h = rw (send_updates, h) refl

  pub send_updates_same :
      (j : ℕ) (info : StoreInfo) (c : SyncConnection) (heap : Heap)
      → any_changed info.seq (heap j) ≡ false
      → send_updates reg j info c heap ≡ (0, c, heap)
  unfolding send_updates
  send_updates_same j info c heap h = rw (send_updates, h) refl

  pub process-found :
      (j : ℕ) (info : StoreInfo) (c : SyncConnection) (heap : Heap)
      → find j c.stores ≡ some info
      → process reg j c heap ≡ send_updates reg j info c heap
  unfolding process process_entry
  process-found j info c heap h = ap (λ e. process_entry reg j e c heap) h

-- What `process` leaves of a journal and of its entry.
pub record Processed (j : ℕ) (info : StoreInfo) (c : SyncConnection) (heap : Heap)
    (r : ℕ × SyncConnection × Heap) : Type 0 where
  pub since : ℕ
  pub entry : find j r.1.stores ≡ some (record info { seq = since })
  pub ids : r.1.id_in ≡ c.id_in
  pub journal : (r.2 j ≡ heap j) ⊎ (r.2 j ≡ bump_seq false (heap j))

-- The bytes of the journal are the same, and its sequence number is at most one higher.
pub Processed-journal :
    (old new : StoreJournal)
    → (new ≡ old) ⊎ (new ≡ bump_seq false old)
    → old.seq + 1 < 2 ^ 64
    → (new.buffer ≡ old.buffer) × ((old.seq ≤ new.seq) × (new.seq ≤ old.seq + 1))
Processed-journal old new (inl e) h =
    (ap (λ j. j.buffer) e, (omega (arith, ap (λ j. j.seq) e), omega (arith, ap (λ j. j.seq) e)))
Processed-journal old new (inr e) h =
    let seq = ap (λ (j : StoreJournal). j.seq) e in
    (
      ap (λ j. j.buffer) e ∙ bump_seq-buffer old,
      elim (bump_seq-seq old) [
        | inl same ↦ (omega (arith, seq, same), omega (arith, seq, same))
        | inr next ↦ (omega (arith, seq, next, h), omega (arith, seq, next, h))
      ],
    )

pub process-Processed :
    (reg : Registry) (j : ℕ) (info : StoreInfo) (c : SyncConnection) (heap : Heap)
    → find j c.stores ≡ some info
    → Processed j info c heap (process reg j c heap)
process-Processed reg j info c heap h =
    subst (Processed j info c heap) (sym (process-found reg j info c heap h))
      (elim (Bool-cases (any_changed info.seq (heap j))) [
        | inl e ↦
            subst (Processed j info c heap) (sym (send_updates_changed reg j info c heap e))
              (record {
                since = (bump_seq false (heap j)).seq;
                entry = find-set_self j _ c.stores;
                ids = refl;
                journal = inr (put_journal_self j (bump_seq false (heap j)) heap);
              })
        | inr e ↦
            subst (Processed j info c heap) (sym (send_updates_same reg j info c heap e))
              (record { since = info.seq; entry = h; ids = refl; journal = inl refl })
      ])

-- The journal is still of the same kind.
pub Processed-SameStore :
    (src old new : StoreJournal)
    → SameStore src old
    → (new ≡ old) ⊎ (new ≡ bump_seq false old)
    → SameStore src new
Processed-SameStore src old new same (inl e) = subst (SameStore src) (sym e) same
Processed-SameStore src old new same (inr e) = subst (SameStore src) (sym e) (record {
  little = (bump_seq-kind old).0 ∙ same.little;
  key_size = (bump_seq-kind old).1 ∙ same.key_size;
  size = ap length (bump_seq-buffer old) ∙ same.size;
})

-- `enter_updates` of updates that are all applied.
pub enter_updates_applied :
    (reg : Registry) (id j : ℕ) (journal : StoreJournal) (info : StoreInfo)
    → (c : SyncConnection) (heap : Heap) → 0 < journal.seq
    → find j c.stores ≡ some info
    → enter_updates reg id j (applied journal journal.seq) c heap
      ≡ running (
        record c { stores = set j (record info { seq = journal.seq }) c.stores },
        put_journal j journal heap,
      )
unfolding enter_updates
enter_updates_applied reg id j journal info c heap h entry =
    let some_seq : (journal.seq == 0) ≡ false = ground (arith, h) in
    rw
      (
        enter_updates,
        some_seq,
        contains-found info j c.stores entry,
        find_or-found no_info info j c.stores entry,
      )
      refl
