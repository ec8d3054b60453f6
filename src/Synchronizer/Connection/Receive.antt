-- ===== src/Synchronizer/Connection/Receive.antt =====
-- What SyncConnection (src/synchronizer.cpp) does with the messages that it receives: decode.
use libstored.Prelude.{ℕ, Bool, true, false, not, ◌&&◌, List, ◌++◌, Option, none, some}
use libstored.Prelude.{◌==◌, if◌then◌else◌, length}
use libstored.Protocol.{Bytes}
use libstored.Synchronizer.Journal.{ObjectInfo}
use libstored.Synchronizer.StoreJournal.{StoreJournal}
use libstored.Synchronizer.StoreJournal.Message.{
  Decoded, applied, failed, overrun, out_of_fuel, decode_hash, encode_buffer, decode_buffer,
  decode_updates,
}
use libstored.Synchronizer.Map.{find, find_or, contains, set}
use libstored.Synchronizer.Connection.{
  StoreInfo, no_info, SyncConnection, Registry, Outcome, running, unfinished, past_end, assert_that,
  ◌>>=◌, to_journal, hello, welcome, update, bye, command_of, send, encode_cmd, decode_cmd,
  encode_id, decode_id, next_id,
}
use libstored.Synchronizer.Connection.Drop.{
  drop_non_sources, erase_out, erase_store, bye_hash, bye_id,
}
use libstored.Synchronizer.Connection.Messages.{
  Heap, put_journal, hello_again, hello_again_all, process,
}

module _ (reg : Registry) where
  -- What a Hello with a hash and an id leads to, by the journal of the hash.
  unfoldable pub answer_hello :
      Bytes → ℕ → Option ℕ → SyncConnection → Heap → Outcome (SyncConnection × Heap)
  unfolding bye_hash encode_buffer put_journal send encode_cmd encode_id
  answer_hello hash id none c heap = running (bye_hash reg hash c, heap)
  answer_hello hash id (some j) c heap = do
    let c1 = send (encode_cmd reg.little welcome false ++ encode_id reg.little id false) c
    (id_in, c2) ← next_id c1
    let (chunks, journal) = encode_buffer true (heap j)
    running (
      send (encode_id reg.little id_in false ++ chunks) (record c2 {
        stores = set j (record { seq = journal.seq; id_out = id; source = false }) c2.stores;
        id_in = set id_in j c2.id_in;
      }),
      put_journal j journal heap,
    )

  -- `decode` of a Hello, behind the command.
  unfoldable pub decode_hello : Bytes → SyncConnection → Heap → Outcome (SyncConnection × Heap)
  unfolding decode_hash decode_id to_journal answer_hello
  decode_hello buffer c heap =
      let (hash, more) = decode_hash buffer in
      let (id, _) = decode_id reg.little more in
      if id == 0 then running (c, heap) else answer_hello hash id (to_journal reg hash) c heap

  -- What a Welcome does with the result of `decodeBuffer`.
  unfoldable pub enter_welcome :
      ℕ → ℕ → ℕ → StoreJournal × Bytes × ℕ → SyncConnection → Heap → Outcome (SyncConnection × Heap)
  unfolding put_journal bye_id
  enter_welcome id welcome_id j (journal, left, seq) c heap =
      let heap' = put_journal j journal heap in
      let info = find_or no_info j c.stores in
      if seq == 0
      then running (bye_id reg id c, heap')
      else assert_that info.source (
        record c { stores = set j (record info { seq = seq; id_out = welcome_id }) c.stores },
        heap',
      )

  -- The journal is the one that has the id.
  unfoldable pub accept_welcome :
      ℕ → ℕ → Bytes → Option ℕ → SyncConnection → Heap → Outcome (SyncConnection × Heap)
  unfolding decode_buffer enter_welcome bye_id
  accept_welcome id welcome_id buffer none c heap = running (bye_id reg id c, heap)
  accept_welcome id welcome_id buffer (some j) c heap =
      if welcome_id == 0
      then running (bye_id reg id c, heap)
      else enter_welcome id welcome_id j (decode_buffer buffer (heap j)) c heap

  unfoldable pub decode_welcome : Bytes → SyncConnection → Heap → Outcome (SyncConnection × Heap)
  unfolding decode_id accept_welcome
  decode_welcome buffer c heap =
      let (id, more) = decode_id reg.little buffer in
      let (welcome_id, left) = decode_id reg.little more in
      if id == 0
      then running (c, heap)
      else accept_welcome id welcome_id left (find id c.id_in) c heap

  -- A Bye with an id, by the journal that has it.
  unfoldable pub bye_of_id : ℕ → Option ℕ → SyncConnection → Outcome SyncConnection
  unfolding hello_again erase_out
  bye_of_id id none c = running c
  bye_of_id id (some j) c =
      let info = find_or no_info j c.stores in
      let c' = record c { stores = set j info c.stores } in
      if info.source && not (info.id_out == 0)
      then hello_again reg j c'
      else running (erase_out id c')

  -- A Bye with a hash, by its journal and the entry of that.
  unfoldable pub bye_of_hash :
      Bytes → ℕ → Option StoreInfo → SyncConnection → Outcome SyncConnection
  unfolding hello_again erase_store
  bye_of_hash hash j none c = running c
  bye_of_hash hash j (some info) c =
      if info.source && not (info.id_out == 0)
      then hello_again reg j c
      else running (erase_store reg hash c)

  -- `fuel` is for the loop of `helloAgain`.
  unfoldable pub decode_bye : ℕ → Bytes → SyncConnection → Outcome SyncConnection
  unfolding decode_id decode_hash to_journal drop_non_sources hello_again_all bye_of_id bye_of_hash
  decode_bye fuel buffer c =
      let id = (decode_id reg.little buffer).0 in
      let hash = (decode_hash buffer).0 in
      if length buffer == 0
      then hello_again_all reg fuel (drop_non_sources c)
      else if length buffer == 2
      then (if id == 0 then running c else bye_of_id id (find id c.id_in) c)
      else (elim (to_journal reg hash) [
        | none ↦ running c
        | some j ↦ bye_of_hash hash j (find j c.stores) c
      ])

  -- What an Update does with the result of `decodeUpdates`.
  unfoldable pub enter_updates :
      ℕ → ℕ → Decoded → SyncConnection → Heap → Outcome (SyncConnection × Heap)
  unfolding put_journal bye_id
  enter_updates id j (applied journal seq) c heap =
      let heap' = put_journal j journal heap in
      let info = find_or no_info j c.stores in
      if seq == 0
      then running (bye_id reg id c, heap')
      else assert_that (contains j c.stores)
          (record c { stores = set j (record info { seq = seq }) c.stores }, heap')
  enter_updates id j (failed journal left) c heap =
      running (bye_id reg id c, put_journal j journal heap)
  enter_updates id j overrun c heap = past_end
  enter_updates id j out_of_fuel c heap = unfinished

  -- std::sort, and whether another connection synchronizes a journal.
  module _ (sort : List ObjectInfo → List ObjectInfo) (elsewhere : ℕ → Bool) where
    -- An Update for a journal: its own changes are sent first.
    unfoldable pub receive_updates :
        ℕ → ℕ → Bytes → ℕ × SyncConnection × Heap → Outcome (SyncConnection × Heap)
    unfolding decode_updates enter_updates
    receive_updates id j buffer (seq, c, heap) =
        enter_updates id j (decode_updates sort (length buffer) (elsewhere j) buffer (heap j)) c
          heap

    -- The journal is the one that has the id.
    unfoldable pub update_of_id :
        ℕ → Option ℕ → Bytes → SyncConnection → Heap → Outcome (SyncConnection × Heap)
    unfolding bye_id process receive_updates
    update_of_id id none buffer c heap = running (bye_id reg id c, heap)
    update_of_id id (some j) buffer c heap = receive_updates id j buffer (process reg j c heap)

    unfoldable pub decode_update : Bytes → SyncConnection → Heap → Outcome (SyncConnection × Heap)
    unfolding decode_id update_of_id
    decode_update buffer c heap =
        let (id, more) = decode_id reg.little buffer in
        if id == 0 then running (c, heap) else update_of_id id (find id c.id_in) more c heap

    unfoldable pub decode : ℕ → Bytes → SyncConnection → Heap → Outcome (SyncConnection × Heap)
    unfolding decode_cmd command_of decode_hello decode_welcome decode_update decode_bye
    decode fuel bytes c heap =
        let (cmd, buffer) = decode_cmd bytes in
        elim (command_of reg.little cmd) [
          | none ↦ running (c, heap)
          | some hello ↦ decode_hello buffer c heap
          | some welcome ↦ decode_welcome buffer c heap
          | some update ↦ decode_update buffer c heap
          | some bye ↦ do c' ← decode_bye fuel buffer c; running (c', heap)
        ]
