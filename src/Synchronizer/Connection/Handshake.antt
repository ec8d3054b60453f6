-- ===== src/Synchronizer/Connection/Handshake.antt =====
-- The start of a synchronization over a SyncConnection (src/synchronizer.cpp): the Hello of one
-- party, the Welcome of the other one, and the store that is copied.
use libstored.Prelude.{
  ℕ, ◌≡◌, refl, ap, ◌∙◌, Bool, true, false, List, [], ◌∷◌, ◌++◌, append_assoc, none, some, arith,
  length,
}
use libstored.Prelude.{◌==◌, if◌then◌else◌, ◌+◌, ◌%◌, ◌^◌, ◌<◌}
use libstored.Protocol.{Bytes, Chunk, frames}
use libstored.Synchronizer.StoreJournal.{StoreJournal, bump_seq}
use libstored.Synchronizer.StoreJournal.Message.{encode_hash, decode_buffer}
use libstored.Synchronizer.Map.{find, set, find_or-found}
use libstored.Synchronizer.Connection.{
  StoreInfo, no_info, SyncConnection, Registry, Outcome, running, to_journal, hello, welcome,
  command_byte, send, encode_cmd, encode_id, id_bytes, decode_id, next_id,
}
use libstored.Synchronizer.Connection.Drop.{bye_id}
use libstored.Synchronizer.Connection.Messages.{Heap, source, put_journal}
use libstored.Synchronizer.Connection.Receive.{
  answer_hello, decode_hello, enter_welcome, accept_welcome, decode_welcome,
}
use libstored.Synchronizer.Connection.NextId.{HasIds, Fresh, next_id-Fresh}
use libstored.Synchronizer.Connection.Codec.{
  IsText, decode_id-only, decode_id-id_bytes, decode_hash-text, decode_buffer-whole,
}

pub nonzero : (id : ℕ) → 0 < id → (id == 0) ≡ false
nonzero id h = ground (arith, h)

-- A Hello and a Welcome, behind the command.
abbrev pub hello_body : Bool → Bytes → ℕ → Bytes
hello_body little hash id = hash ++ (0 ∷ id_bytes little id)

abbrev pub welcome_body : Bool → ℕ → ℕ → Bytes → Bytes
welcome_body little id id_out buffer = id_bytes little id ++ (id_bytes little id_out ++ buffer)

module _ (reg : Registry) where
  -- The calls of `source`, and the connection behind it.
  abbrev pub hello_chunks : Bytes → ℕ → List Chunk
  hello_chunks hash id =
      encode_cmd reg.little hello false ++ (encode_hash hash false ++ encode_id reg.little id true)

  pub frames-hello_chunks :
      (hash : Bytes) (id : ℕ)
      → frames [] (hello_chunks hash id)
        ≡ (command_byte reg.little hello ∷ hello_body reg.little hash id) ∷ []
  unfolding frames encode_cmd encode_hash encode_id
  frames-hello_chunks hash id =
      ap (λ r. (command_byte reg.little hello ∷ r) ∷ [])
        (append_assoc hash (0 ∷ []) (id_bytes reg.little id))

  abbrev pub sourced : ℕ → ℕ → SyncConnection → SyncConnection
  sourced j id c = record {
    stores = set j (record no_info { source = true }) c.stores;
    id_in = set id j c.id_in;
    id_in_next = (id + 1) % 2 ^ 16;
    sent = c.sent ++ hello_chunks (reg.hash j) id;
  }

  -- The connection when `source` asks for an id.
  abbrev pub greeted : ℕ → SyncConnection → SyncConnection
  greeted j c =
      send (encode_cmd reg.little hello false ++ encode_hash (reg.hash j) false)
        (record c { stores = set j (record no_info { source = true }) c.stores })

  source_new :
      (j id next : ℕ) (c : SyncConnection)
      → find j c.stores ≡ none
      → next_id (greeted j c) ≡ running (id, record (greeted j c) { id_in_next = next })
      → source reg j c ≡ running (record (sourced j id c) { id_in_next = next })
  unfolding source
  source_new j id next c new run =
      rw (source, new, run)
        (ap (λ chunks. running (record (sourced j id c) { id_in_next = next; sent = chunks }))
          (append_assoc c.sent (encode_cmd reg.little hello false ++ encode_hash (reg.hash j) false)
            (encode_id reg.little id true)))

  pub source-sourced :
      (j : ℕ) (c : SyncConnection)
      → find j c.stores ≡ none
      → HasIds c
      → (id : ℕ) × ((source reg j c ≡ running (sourced j id c)) × Fresh c.id_in id)
  unfolding send
  source-sourced j c new ids =
      let (id, (run, fresh)) = next_id-Fresh (greeted j c) ids in
      (id, (source_new j id ((id + 1) % 2 ^ 16) c new run, fresh))

  -- The calls of the answer to a Hello, and the connection behind it.
  abbrev pub welcome_chunks : ℕ → ℕ → Bytes → List Chunk
  welcome_chunks id id_in buffer =
      encode_cmd reg.little welcome false
      ++ (encode_id reg.little id false
          ++ (encode_id reg.little id_in false ++ ((buffer, true) ∷ [])))

  pub frames-welcome_chunks :
      (id id_in : ℕ) (buffer : Bytes)
      → frames [] (welcome_chunks id id_in buffer)
        ≡ (command_byte reg.little welcome ∷ welcome_body reg.little id id_in buffer) ∷ []
  unfolding frames encode_cmd encode_id
  frames-welcome_chunks id id_in buffer =
      ap (λ r. (command_byte reg.little welcome ∷ r) ∷ [])
        (append_assoc (id_bytes reg.little id) (id_bytes reg.little id_in) buffer)

  abbrev pub welcomed : ℕ → ℕ → ℕ → StoreJournal → SyncConnection → SyncConnection
  welcomed j id id_in journal c = record {
    stores =
        set j (record { seq = (bump_seq false journal).seq; id_out = id; source = false }) c.stores;
    id_in = set id_in j c.id_in;
    id_in_next = (id_in + 1) % 2 ^ 16;
    sent = c.sent ++ welcome_chunks id id_in journal.buffer;
  }

  abbrev pub answering : ℕ → SyncConnection → SyncConnection
  answering id c = send (encode_cmd reg.little welcome false ++ encode_id reg.little id false) c

  pub answer_hello_known :
      (hash : Bytes) (j id id_in next : ℕ) (c : SyncConnection) (heap : Heap)
      → next_id (answering id c) ≡ running (id_in, record (answering id c) { id_in_next = next })
      → answer_hello reg hash id (some j) c heap
        ≡ running (
          record (welcomed j id id_in (heap j) c) { id_in_next = next },
          put_journal j (bump_seq false (heap j)) heap,
        )
  unfolding answer_hello
  answer_hello_known hash j id id_in next c heap run =
      rw (answer_hello, run)
        (ap
          (λ chunks. running (
            record (welcomed j id id_in (heap j) c) { id_in_next = next; sent = chunks },
            put_journal j (bump_seq false (heap j)) heap,
          ))
          (append_assoc c.sent
            (encode_cmd reg.little welcome false ++ encode_id reg.little id false)
            (encode_id reg.little id_in false ++ (((heap j).buffer, true) ∷ []))))

  pub decode_hello-welcomed :
      (hash : Bytes) (j id : ℕ) (c : SyncConnection) (heap : Heap)
      → IsText hash
      → 0 < id
      → id < 2 ^ 16
      → to_journal reg hash ≡ some j
      → HasIds c
      → (id_in : ℕ) × ((decode_hello reg (hello_body reg.little hash id) c heap
            ≡ running
                (welcomed j id id_in (heap j) c, put_journal j (bump_seq false (heap j)) heap))
          × Fresh c.id_in id_in)
  unfolding decode_hello send
  decode_hello-welcomed hash j id c heap text some_id small known ids =
      let (id_in, (run, fresh)) = next_id-Fresh (answering id c) ids in
      (
        id_in,
        (
          ap (λ r. go (decode_id reg.little r.1).0 r.0)
                (decode_hash-text hash (id_bytes reg.little id) text)
              ∙ ap (λ r. go r.0 hash) (decode_id-only reg.little id small)
              ∙ ap
                  (λ t.
                    if t
                    then running (c, heap)
                    else answer_hello reg hash id (to_journal reg hash) c heap)
                  (nonzero id some_id)
              ∙ ap (λ o. answer_hello reg hash id o c heap) known
              ∙ answer_hello_known hash j id id_in ((id_in + 1) % 2 ^ 16) c heap run,
          fresh,
        ),
      )
    where
      go : ℕ → Bytes → Outcome (SyncConnection × Heap)
      go i h = if i == 0 then running (c, heap) else answer_hello reg h i (to_journal reg h) c heap

  -- The connection behind a Welcome.
  abbrev pub accepted : ℕ → ℕ → ℕ → StoreInfo → SyncConnection → SyncConnection
  accepted j id_out seq info c = record c {
    stores = set j (record info { seq = seq; id_out = id_out }) c.stores;
  }

  enter_welcome_source :
      (id id_out j seq : ℕ) (journal : StoreJournal) (left : Bytes) (info : StoreInfo)
      → (c : SyncConnection) (heap : Heap) → (seq == 0) ≡ false
      → find j c.stores ≡ some info
      → info.source ≡ true
      → enter_welcome reg id id_out j (journal, left, seq) c heap
        ≡ running (accepted j id_out seq info c, put_journal j journal heap)
  unfolding enter_welcome
  enter_welcome_source id id_out j seq journal left info c heap some_seq entry src =
      rw (enter_welcome, some_seq, find_or-found no_info info j c.stores entry, src) refl

  pub decode_welcome-accepted :
      (j id id_out : ℕ) (buffer : Bytes) (info : StoreInfo) (c : SyncConnection) (heap : Heap)
      → 0 < id
      → id < 2 ^ 16
      → 0 < id_out
      → id_out < 2 ^ 16
      → find id c.id_in ≡ some j
      → find j c.stores ≡ some info
      → info.source ≡ true
      → length buffer ≡ length (heap j).buffer
      → (heap j).seq + 1 < 2 ^ 64
      → let (journal, _, seq) = decode_buffer buffer (heap j) in
        decode_welcome reg (welcome_body reg.little id id_out buffer) c heap
        ≡ running (accepted j id_out seq info c, put_journal j journal heap)
  unfolding decode_welcome accept_welcome
  decode_welcome-accepted j id id_out buffer info c heap i i_small o o_small mine entry src size
        room =
      ap (λ r. go r.0 (decode_id reg.little r.1))
        (decode_id-id_bytes reg.little id (id_bytes reg.little id_out ++ buffer) i_small)
      ∙ ap (go id) (decode_id-id_bytes reg.little id_out buffer o_small)
      ∙ ap
          (λ t.
            if t
            then running (c, heap)
            else accept_welcome reg id id_out buffer (find id c.id_in) c heap)
          (nonzero id i)
      ∙ ap (λ k. accept_welcome reg id id_out buffer k c heap) mine
      ∙ ap
          (λ t.
            if t
            then running (bye_id reg id c, heap)
            else enter_welcome reg id id_out j (decode_buffer buffer (heap j)) c heap)
          (nonzero id_out o)
      ∙ enter_welcome_source id id_out j (decode_buffer buffer (heap j)).2
          (decode_buffer buffer (heap j)).0 (decode_buffer buffer (heap j)).1 info c heap
          (nonzero (decode_buffer buffer (heap j)).2
            (omega (arith, room, (decode_buffer-whole buffer (heap j) size).1.1)))
          entry src
    where
      go : ℕ → ℕ × Bytes → Outcome (SyncConnection × Heap)
      go i r =
          if i == 0 then running (c, heap) else accept_welcome reg i r.0 r.1 (find i c.id_in) c heap
