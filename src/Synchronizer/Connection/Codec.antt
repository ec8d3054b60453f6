-- ===== src/Synchronizer/Connection/Codec.antt =====
-- The fields of the messages of SyncConnection (src/synchronizer.cpp): ids, hashes, and the buffer
-- of a store are decoded as they were encoded.
use libstored.Prelude.{
  ℕ, ◌≡◌, refl, ap, ◌∙◌, Bool, true, false, [], ◌∷◌, ◌++◌, map, some, All, arith, length, take,
  take_all,
}
use libstored.Prelude.{◌==◌, ◌+◌, ◌-◌, ◌%◌, ◌^◌, ◌<◌, ltb}
use libstored.Protocol.{Bytes}
use libstored.Synchronizer.Journal.{ObjectInfo}
use libstored.Synchronizer.Journal.ShortSeq.{to_short}
use libstored.Synchronizer.StoreJournal.{StoreJournal, bump_seq, shift_window}
use libstored.Synchronizer.StoreJournal.Message.{split_zero, decode_hash, decode_buffer}
use libstored.Synchronizer.Connection.{id_bytes, decode_id, command_of, command_byte, Command}

pub length-id_bytes : (little : Bool) (id : ℕ) → length (id_bytes little id) ≡ 2
length-id_bytes true id = refl
length-id_bytes false id = refl

pub decode_id-id_bytes :
    (little : Bool) (id : ℕ) (rest : Bytes)
    → id < 2 ^ 16
    → decode_id little (id_bytes little id ++ rest) ≡ (id, rest)
unfolding decode_id
decode_id-id_bytes true id rest h =
    let enough : ltb (length (id_bytes true id ++ rest)) 2 ≡ false = ground arith in
    rw (decode_id, enough) (ap (λ v. (v, rest)) (omega (arith, h)))
decode_id-id_bytes false id rest h =
    let enough : ltb (length (id_bytes false id ++ rest)) 2 ≡ false = ground arith in
    rw (decode_id, enough) (ap (λ v. (v, rest)) (omega (arith, h)))

pub decode_id-only :
    (little : Bool) (id : ℕ) → id < 2 ^ 16 → decode_id little (id_bytes little id) ≡ (id, [])
decode_id-only true id h = decode_id-id_bytes true id [] h
decode_id-only false id h = decode_id-id_bytes false id [] h

-- A C string.
abbrev pub IsText : Bytes → Type 0
IsText = All (λ b. 0 < b)

split_zero-text :
    (hash rest : Bytes) → IsText hash → split_zero (hash ++ (0 ∷ rest)) ≡ some (hash, rest)
unfolding split_zero
split_zero-text [] rest h = refl
split_zero-text (b ∷ bs) rest h =
    let more : (b == 0) ≡ false = ground (arith, h.0) in rw (split_zero-text bs rest h.1, more) refl

pub decode_hash-text :
    (hash rest : Bytes) → IsText hash → decode_hash (hash ++ (0 ∷ rest)) ≡ (hash, rest)
unfolding decode_hash
decode_hash-text hash rest h = rw (decode_hash, split_zero-text hash rest h) refl

bump_seq-new :
    (j : StoreJournal)
    → j.partial_seq ≡ true
    → ((bump_seq false j).buffer ≡ j.buffer) × ((bump_seq false j).seq ≡ (j.seq + 1) % 2 ^ 64)
unfolding bump_seq shift_window
bump_seq-new j h = rw h (ground arith)

-- The journal when it has copied the bytes, before it bumps its sequence number.
abbrev written : Bytes → StoreJournal → StoreJournal
written bytes j =
    let short = to_short j.seq in
    record j {
      buffer = take (length j.buffer) bytes;
      partial_seq = true;
      changes = map (λ (o : ObjectInfo). record o { seq = short; highest = short }) j.changes;
    }

decode_buffer_enough :
    (bytes : Bytes) (j : StoreJournal)
    → ltb (length bytes) (length j.buffer) ≡ false
    → decode_buffer bytes j ≡ (
      bump_seq false (written bytes j),
      take (length bytes - length j.buffer) bytes,
      (bump_seq false (written bytes j)).seq,
    )
unfolding decode_buffer
decode_buffer_enough bytes j h = rw h refl

pub decode_buffer-whole :
    (bytes : Bytes) (j : StoreJournal)
    → length bytes ≡ length j.buffer
    → ((decode_buffer bytes j).0.buffer ≡ bytes)
      × (((decode_buffer bytes j).0.seq ≡ (j.seq + 1) % 2 ^ 64)
          × ((decode_buffer bytes j).2 ≡ (j.seq + 1) % 2 ^ 64))
decode_buffer-whole bytes j h =
    let step = decode_buffer_enough bytes j (ground (arith, h)) in
    let (copied, next) = bump_seq-new (written bytes j) refl in
    (
      ap (λ r. r.0.buffer) step ∙ copied ∙ take_all (length j.buffer) bytes (omega (arith, h)),
      (ap (λ r. r.0.seq) step ∙ next, ap (λ r. r.2) step ∙ next),
    )

pub command_of-command_byte :
    (little : Bool) (cmd : Command) → command_of little (command_byte little cmd) ≡ some cmd
unfolding command_of
command_of-command_byte true Command.hello = refl
command_of-command_byte true Command.welcome = refl
command_of-command_byte true Command.update = refl
command_of-command_byte true Command.bye = refl
command_of-command_byte false Command.hello = refl
command_of-command_byte false Command.welcome = refl
command_of-command_byte false Command.update = refl
command_of-command_byte false Command.bye = refl
