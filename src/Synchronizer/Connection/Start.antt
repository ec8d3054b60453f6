-- ===== src/Synchronizer/Connection/Start.antt =====
-- Two SyncConnections (src/synchronizer.cpp) that start to synchronize a store.
use libstored.Prelude.{
  ℕ, ◌≡◌, refl, sym, ap, ◌∙◌, Bool, true, false, List, [], ◌∷◌, ◌++◌, none, some, arith, length,
}
use libstored.Prelude.{◌==◌, ◌+◌, ◌^◌, ◌<◌}
use libstored.Protocol.{Bytes, Chunk, frames}
use libstored.Synchronizer.Journal.{ObjectInfo}
use libstored.Synchronizer.StoreJournal.{StoreJournal, bump_seq}
use libstored.Synchronizer.StoreJournal.Message.{decode_buffer}
use libstored.Synchronizer.StoreJournal.Message.Copy.{bump_seq-buffer}
use libstored.Synchronizer.Map.{find, find-set_self}
use libstored.Synchronizer.Connection.{
  no_info, SyncConnection, Registry, running, to_journal, command_byte, hello, welcome,
}
use libstored.Synchronizer.Connection.Messages.{Heap, source, put_journal}
use libstored.Synchronizer.Connection.Receive.{decode}
use libstored.Synchronizer.Connection.NextId.{HasIds}
use libstored.Synchronizer.Connection.Codec.{IsText, decode_buffer-whole}
use libstored.Synchronizer.Connection.Commands.{decode-hello, decode-welcome}
use libstored.Synchronizer.Connection.Handshake.{
  hello_chunks, frames-hello_chunks, welcome_chunks, frames-welcome_chunks, sourced, welcomed,
  accepted, hello_body, welcome_body, source-sourced, decode_hello-welcomed,
  decode_welcome-accepted,
}

-- A connection sends one message.
abbrev pub Sends : SyncConnection → Bytes → SyncConnection → Type 0
Sends c bytes c' =
    (chunks : List Chunk) × ((c'.sent ≡ c.sent ++ chunks) × (frames [] chunks ≡ bytes ∷ []))

-- A connection synchronizes a journal: it has an id for it, and the other party's id.
pub record Linked (c : SyncConnection) (j id_in id_out seq : ℕ) (source : Bool) : Type 0 where
  pub entry : find j c.stores ≡ some (record { seq = seq; id_out = id_out; source = source })
  pub mine : find id_in c.id_in ≡ some j

pub put_journal_self :
    (j : ℕ) (journal : StoreJournal) (heap : Heap) → put_journal j journal heap j ≡ journal
unfolding put_journal
put_journal_self j journal heap =
    let same : (j == j) ≡ true = ground arith in rw (put_journal, same) refl

-- What both parties have, the one that asked for the store first.
pub record Synchronizes (ca cb : SyncConnection) (a b : ℕ) (ha hb : Heap) : Type 0 where
  pub id_a : ℕ
  pub id_b : ℕ
  pub asker : Linked ca a id_a id_b (ha a).seq true
  pub answerer : Linked cb b id_b id_a (hb b).seq false
  pub same_bytes : (ha a).buffer ≡ (hb b).buffer

module _ (sort : List ObjectInfo → List ObjectInfo) (elsewhere : ℕ → Bool) (fuel : ℕ)
    (ra rb : Registry) (a b : ℕ) (ca cb : SyncConnection) (ha hb : Heap) where
  -- The messages of the start, and what both parties do with them.
  pub record Started : Type 0 where
    pub asked : SyncConnection
    pub hello_frame : Bytes
    pub answered : SyncConnection
    pub heap_b : Heap
    pub welcome_frame : Bytes
    pub done : SyncConnection
    pub heap_a : Heap
    pub asks : source ra a ca ≡ running asked
    pub says_hello : Sends ca hello_frame asked
    pub answers : decode rb sort elsewhere fuel hello_frame cb hb ≡ running (answered, heap_b)
    pub says_welcome : Sends cb welcome_frame answered
    pub accepts : decode ra sort elsewhere fuel welcome_frame asked ha ≡ running (done, heap_a)
    pub synchronizes : Synchronizes done answered a b heap_a heap_b
    pub received : (heap_a a).buffer ≡ (hb b).buffer

  -- Of two parties of the same byte order, one asks for a store that it does not yet synchronize over
  -- the connection, and the other one knows its hash, a C string, and has a store of the same size:
  -- `source` sends one Hello, `decode` of it by the other party sends one Welcome, and after `decode`
  -- of that both synchronize the store with the ids of each other, and the asking party has the bytes
  -- of the other one. Both have less than 32767 ids in use, and the sequence number does not wrap.
  pub source-decode :
      rb.little ≡ ra.little
      → IsText (ra.hash a)
      → to_journal rb (ra.hash a) ≡ some b
      → find a ca.stores ≡ none
      → HasIds ca
      → HasIds cb
      → length (hb b).buffer ≡ length (ha a).buffer
      → (ha a).seq + 1 < 2 ^ 64
      → Started
  source-decode order text known new ids_a ids_b size room =
      let (id_a, (run_a, fresh_a)) = source-sourced ra a ca new ids_a in
      let (id_b, (run_b, fresh_b)) =
        decode_hello-welcomed rb (ra.hash a) b id_a cb hb text fresh_a.nonzero fresh_a.small known
          ids_b in
      let asked = sourced ra a id_a ca in
      let buffer = (hb b).buffer in
      let (copied, (next, seq)) = decode_buffer-whole buffer (ha a) size in
      let got = decode_buffer buffer (ha a) in
      record {
        asked = asked;
        hello_frame = command_byte ra.little hello ∷ hello_body ra.little (ra.hash a) id_a;
        answered = welcomed rb b id_a id_b (hb b) cb;
        heap_b = put_journal b (bump_seq false (hb b)) hb;
        welcome_frame = command_byte rb.little welcome ∷ welcome_body rb.little id_a id_b buffer;
        done = accepted ra a id_b got.2 (record no_info { source = true }) asked;
        heap_a = put_journal a got.0 ha;
        asks = run_a;
        says_hello =
            (hello_chunks ra (ra.hash a) id_a, (refl, frames-hello_chunks ra (ra.hash a) id_a));
        answers =
            ap
              (λ l.
                decode rb sort elsewhere fuel (command_byte l hello ∷ hello_body l (ra.hash a) id_a)
                  cb hb)
              (sym order)
            ∙ decode-hello sort elsewhere fuel rb (hello_body rb.little (ra.hash a) id_a) cb hb
            ∙ run_b;
        says_welcome =
            (welcome_chunks rb id_a id_b buffer, (refl, frames-welcome_chunks rb id_a id_b buffer));
        accepts =
            ap
              (λ l.
                decode ra sort elsewhere fuel
                  (command_byte l welcome ∷ welcome_body l id_a id_b buffer) asked ha)
              order
            ∙ decode-welcome sort elsewhere fuel ra (welcome_body ra.little id_a id_b buffer) asked
                ha
            ∙ decode_welcome-accepted ra a id_a id_b buffer (record no_info { source = true }) asked
                ha fresh_a.nonzero fresh_a.small fresh_b.nonzero fresh_b.small
                (find-set_self id_a a ca.id_in)
                (find-set_self a (record no_info { source = true }) ca.stores) refl size room;
        synchronizes = record {
          id_a = id_a;
          id_b = id_b;
          asker = record {
            entry =
                find-set_self a (record { seq = got.2; id_out = id_b; source = true }) asked.stores
                ∙ ap (λ n. some (record { seq = n; id_out = id_b; source = true }))
                    (seq ∙ sym next ∙ sym (ap (λ j. j.seq) (put_journal_self a got.0 ha)));
            mine = find-set_self id_a a ca.id_in;
          };
          answerer = record {
            entry =
                find-set_self b
                  (record { seq = (bump_seq false (hb b)).seq; id_out = id_a; source = false })
                  cb.stores
                ∙ ap (λ n. some (record { seq = n; id_out = id_a; source = false }))
                    (sym (ap (λ j. j.seq) (put_journal_self b (bump_seq false (hb b)) hb)));
            mine = find-set_self id_b b cb.id_in;
          };
          same_bytes =
              ap (λ j. j.buffer) (put_journal_self a got.0 ha)
              ∙ copied
              ∙ sym (
                  ap (λ j. j.buffer) (put_journal_self b (bump_seq false (hb b)) hb)
                  ∙ bump_seq-buffer (hb b));
        };
        received = ap (λ j. j.buffer) (put_journal_self a got.0 ha) ∙ copied;
      }
