-- ===== src/Synchronizer/Connection/Exchange.antt =====
-- An update from one SyncConnection (src/synchronizer.cpp) to the other one: process and decode.
use libstored.Prelude.{
  ℕ, ◌≡◌, refl, sym, ap, ◌∙◌, Bool, true, false, List, ◌∷◌, ◌++◌, some, arith, length, get_or,
}
use libstored.Prelude.{◌==◌, if◌then◌else◌, ◌+◌, ◌^◌, ◌<◌}
use mathlib.Core.Path.{subst}
use libstored.Protocol.{Bytes}
use libstored.Synchronizer.Journal.{ObjectInfo}
use libstored.Synchronizer.StoreJournal.{StoreJournal, bump_seq, any_changed, iterate_changed}
use libstored.Synchronizer.StoreJournal.Message.{encode_updates, decode_updates}
use libstored.Synchronizer.StoreJournal.Message.Copy.{bump_seq-buffer}
use libstored.Synchronizer.StoreJournal.Message.Updates.{IsStore, AllInStore}
use libstored.Synchronizer.StoreJournal.Message.Receive.{
  SameStore, covered, decode_updates-encode_updates,
}
use libstored.Synchronizer.StoreJournal.Message.Seq.{SeqFrom, decode_updates-SeqFrom}
use libstored.Synchronizer.Map.{find, find-set_self}
use libstored.Synchronizer.Connection.{
  StoreInfo, SyncConnection, Registry, Outcome, running, id_bytes, command_byte, update,
}
use libstored.Synchronizer.Connection.Messages.{Heap, put_journal, process}
use libstored.Synchronizer.Connection.Receive.{
  decode, decode_update, enter_updates, receive_updates, update_of_id,
}
use libstored.Synchronizer.Connection.Codec.{decode_id-id_bytes}
use libstored.Synchronizer.Connection.Commands.{decode-update}
use libstored.Synchronizer.Connection.Handshake.{nonzero}
use libstored.Synchronizer.Connection.Start.{Sends, Linked, put_journal_self}
use libstored.Synchronizer.Connection.Flow.{
  update_chunks, updated, frames-update_chunks, send_updates_changed, process-found,
  process-Processed, Processed-SameStore, Processed-journal, enter_updates_applied,
}

module _ (sort : List ObjectInfo → List ObjectInfo) (elsewhere : ℕ → Bool) (fuel : ℕ)
    (ra rb : Registry) (a b id_a id_b since_a since_b : ℕ) (source_a source_b : Bool)
    (ca cb : SyncConnection) (ha hb : Heap) where
  -- One party sends its updates, the other one applies them, and both still synchronize the store.
  pub record Updated : Type 0 where
    pub seq : ℕ
    pub sender : SyncConnection
    pub heap_a : Heap
    pub frame : Bytes
    pub receiver : SyncConnection
    pub heap_b : Heap
    pub sends : process ra a ca ha ≡ (seq, sender, heap_a)
    pub says_update : Sends ca frame sender
    pub receives : decode rb sort elsewhere fuel frame cb hb ≡ running (receiver, heap_b)
    pub sender_linked : Linked sender a id_a id_b (heap_a a).seq source_a
    pub receiver_linked : Linked receiver b id_b id_a (heap_b b).seq source_b
    pub kept : (heap_a a).buffer ≡ (ha a).buffer
    pub bytes :
        (i : ℕ)
        → get_or (heap_b b).buffer i 0 ≡ (
            if covered i (iterate_changed since_a (ha a))
            then get_or (ha a).buffer i 0
            else get_or (hb b).buffer i 0)

  -- `decode` of an Update for a journal, up to what `decodeUpdates` does.
  decode_for :
      (bytes : Bytes)
      → rb.little ≡ ra.little
      → 0 < id_b
      → id_b < 2 ^ 16
      → find id_b cb.id_in ≡ some b
      → let (_, c, heap) = process rb b cb hb in
        decode rb sort elsewhere fuel
          (command_byte ra.little update ∷ (id_bytes ra.little id_b ++ bytes))
          cb
          hb
        ≡ enter_updates rb id_b b
            (decode_updates sort (length bytes) (elsewhere b) bytes (heap b))
            c
            heap
  unfolding decode_update update_of_id receive_updates
  decode_for bytes order positive small mine =
      ap
        (λ l.
          decode rb sort elsewhere fuel (command_byte l update ∷ (id_bytes l id_b ++ bytes)) cb hb)
        (sym order)
      ∙ decode-update sort elsewhere fuel rb (id_bytes rb.little id_b ++ bytes) cb hb
      ∙ ap go (decode_id-id_bytes rb.little id_b bytes small)
      ∙ ap
          (λ t.
            if t
            then running (cb, hb)
            else update_of_id rb sort elsewhere id_b (find id_b cb.id_in) bytes cb hb)
          (nonzero id_b positive)
      ∙ ap (λ k. update_of_id rb sort elsewhere id_b k bytes cb hb) mine
    where
      go : ℕ × Bytes → Outcome (SyncConnection × Heap)
      go r =
          if r.0 == 0
          then running (cb, hb)
          else update_of_id rb sort elsewhere r.0 (find r.0 cb.id_in) r.1 cb hb

  -- Two parties of the same byte order synchronize a store of the same kind over a connection, and
  -- one of them has changes since its last update, to objects within the store, whose keys take 1, 2
  -- or 4 bytes: `process` sends one Update, and `decode` of it by the other party applies it. Then that
  -- one has the bytes of the changed objects and keeps all others, the sender keeps its bytes, and both
  -- synchronize the store with the same ids and their new sequence numbers. The sequence number of
  -- the receiver is not 0 and does not wrap.
  pub process-decode :
      rb.little ≡ ra.little
      → Linked ca a id_a id_b since_a source_a
      → Linked cb b id_b id_a since_b source_b
      → 0 < id_b
      → id_b < 2 ^ 16
      → any_changed since_a (ha a) ≡ true
      → IsStore (ha a)
      → AllInStore (ha a).buffer (iterate_changed since_a (ha a))
      → SameStore (ha a) (hb b)
      → 0 < (hb b).seq
      → (hb b).seq + 2 < 2 ^ 64
      → Updated
  process-decode order la lb positive small changed store inside same some_seq room =
      let info_a : StoreInfo = record { seq = since_a; id_out = id_b; source = source_a } in
      let info_b : StoreInfo = record { seq = since_b; id_out = id_a; source = source_b } in
      let p = process rb b cb hb in
      let done = process-Processed rb b info_b cb hb lb.entry in
      let (as_was, (low, high)) =
        Processed-journal (hb b) (p.2 b) done.journal (omega (arith, room)) in
      let (bytes, dst, (one, run, content)) =
        decode_updates-encode_updates sort (elsewhere b) (ha a) store since_a (p.2 b) inside
          (Processed-SameStore (ha a) (hb b) (p.2 b) same done.journal) in
      let next = subst (SeqFrom (p.2 b).seq) run (
        decode_updates-SeqFrom sort (elsewhere b) (length bytes) bytes (p.2 b)
          (omega (arith, room, high))) in
      let bumped = put_journal_self a (bump_seq false (ha a)) ha in
      let stored = put_journal_self b dst p.2 in
      record {
        seq = (bump_seq false (ha a)).seq;
        sender = updated ra a info_a (ha a) ca;
        heap_a = put_journal a (bump_seq false (ha a)) ha;
        frame = command_byte ra.little update ∷ (id_bytes ra.little id_b ++ bytes);
        receiver = _;
        heap_b = put_journal b dst p.2;
        sends =
            process-found ra a info_a ca ha la.entry
            ∙ send_updates_changed ra a info_a ca ha changed;
        says_update = (
          update_chunks ra id_b (encode_updates since_a false (ha a)).0,
          (refl, frames-update_chunks ra id_b since_a bytes (ha a) one),
        );
        receives =
            decode_for bytes order positive small lb.mine
            ∙ ap (λ d. enter_updates rb id_b b d p.1 p.2) run
            ∙ enter_updates_applied rb id_b b dst (record info_b { seq = done.since }) p.1 p.2
                (omega (arith, next.0, low, some_seq)) done.entry;
        sender_linked = record {
          entry =
              find-set_self a (record info_a { seq = (bump_seq false (ha a)).seq }) ca.stores
              ∙ ap (λ n. some (record info_a { seq = n }))
                  (sym (ap (λ (j : StoreJournal). j.seq) bumped));
          mine = la.mine;
        };
        receiver_linked = record {
          entry =
              find-set_self b (record info_b { seq = dst.seq }) p.1.stores
              ∙ ap (λ n. some (record info_b { seq = n }))
                  (sym (ap (λ (j : StoreJournal). j.seq) stored));
          mine = ap (find id_b) done.ids ∙ lb.mine;
        };
        kept = ap (λ (j : StoreJournal). j.buffer) bumped ∙ bump_seq-buffer (ha a);
        bytes = λ i.
            ap (λ (j : StoreJournal). get_or j.buffer i 0) stored
            ∙ content i
            ∙ ap
                (λ old.
                  if covered i (iterate_changed since_a (ha a))
                  then get_or (ha a).buffer i 0
                  else get_or old i 0)
                as_was;
      }
