-- ===== src/Synchronizer/StoreJournal/Message.antt =====
-- What StoreJournal (src/synchronizer.cpp) encodes into the layer below, as calls of `encode`, and
-- how it decodes it.
pub mod Numbers
pub mod Copy
pub mod Updates
pub mod Round
pub mod Receive
pub mod Limits
pub mod Terminates
pub mod Seq
use libstored.Prelude.{
  ℕ, zero, suc, Bool, true, false, not, ◌&&◌, ◌||◌, List, [], ◌∷◌, ◌++◌, map, Option, none, some,
}
use libstored.Prelude.{
  ◌==◌, if◌then◌else◌, ◌+◌, ◌-◌, ◌*◌, ◌/◌, ◌%◌, ◌^◌, ltb, leb, length, take, drop,
}
use libstored.Protocol.{Bytes, Chunk}
use libstored.Synchronizer.Journal.{ObjectInfo}
use libstored.Synchronizer.Journal.Halves.{halves}
use libstored.Synchronizer.Journal.ShortSeq.{to_short, to_long}
use libstored.Synchronizer.StoreJournal.{StoreJournal, bump_seq, changed}

-- A number in bytes, the least significant one first, and the most significant one first.
abbrev pub to_little : ℕ → ℕ → Bytes
to_little zero k = []
to_little (suc n) k = k % 256 ∷ to_little n (k / 256)

abbrev pub to_big : ℕ → ℕ → Bytes → Bytes
to_big zero k rest = rest
to_big (suc n) k rest = to_big n (k / 256) (k % 256 ∷ rest)

abbrev pub of_little : Bytes → ℕ
of_little [] = 0
of_little (b ∷ bs) = b + 256 * of_little bs

abbrev pub of_big : ℕ → Bytes → ℕ
of_big acc [] = acc
of_big acc (b ∷ bs) = of_big (acc * 256 + b) bs

-- The key sizes that the source handles. It asserts that there is no other.
unfoldable pub has_type : ℕ → Bool
has_type n = n == 1 || n == 2 || n == 4

unfoldable pub encode_key : StoreJournal → ℕ → List Chunk
unfolding has_type
encode_key j key =
    if has_type j.key_size
    then ((if j.little then to_little j.key_size key else to_big j.key_size key []), false) ∷ []
    else []

-- The key, what is left of the buffer, and `ok`.
unfoldable pub decode_key : StoreJournal → Bytes → ℕ × Bytes × Bool
unfolding has_type
decode_key j buffer =
    if ltb (length buffer) j.key_size || not (has_type j.key_size) then (0, buffer, false) else (
      (if j.little then of_little (take j.key_size buffer) else of_big 0 (take j.key_size buffer)),
      drop j.key_size buffer,
      true,
    )

-- The hash of the store with its terminator.
unfoldable pub encode_hash : Bytes → Bool → List Chunk
encode_hash hash last = (hash ++ (0 ∷ []), last) ∷ []

unfoldable pub split_zero : Bytes → Option (Bytes × Bytes)
split_zero [] = none
split_zero (b ∷ bs) =
    let rest = split_zero bs in
    if b == 0
    then some ([], bs)
    else elim rest [ none ↦ none | some (hash, more) ↦ some (b ∷ hash, more) ]

-- The hash and what is left; both are empty where there is no terminator.
unfoldable pub decode_hash : Bytes → Bytes × Bytes
unfolding split_zero
decode_hash buffer = elim (split_zero buffer) [ none ↦ ([], []) | some (hash, more) ↦ (hash, more) ]

unfoldable pub encode_buffer : Bool → StoreJournal → List Chunk × StoreJournal
unfolding bump_seq
encode_buffer last j = ((j.buffer, last) ∷ [], bump_seq false j)

-- The journal, what is left and the result. The source lowers the length that is left, and not the
-- start of the buffer.
unfoldable pub decode_buffer : Bytes → StoreJournal → StoreJournal × Bytes × ℕ
unfolding bump_seq
decode_buffer buffer j =
    let size = length j.buffer in
    let short = to_short j.seq in
    let read = bump_seq false (record j {
      buffer = take size buffer;
      partial_seq = true;
      changes = map (λ (o : ObjectInfo). record o { seq = short; highest = short }) j.changes;
    }) in
    if ltb (length buffer) size
    then (j, buffer, 0)
    else (read, take (length buffer - size) buffer, read.seq)

unfoldable pub encode_update : StoreJournal → ObjectInfo → List Chunk
unfolding encode_key
encode_update j o =
    encode_key j o.key ++ (encode_key j o.len ++ ((take o.len (drop o.key j.buffer), false) ∷ []))

-- `encodeUpdates` of a range.
unfoldable pub encode_range : StoreJournal → ℕ → ℕ → List ObjectInfo → List Chunk
unfolding encode_update
encode_range j zero since xs = []
encode_range j (suc fuel) since xs = elim (halves xs) [
  | none ↦ []
  | some (before, o, behind) ↦
      let from_before = encode_range j fuel since before in
      let from_behind = encode_range j fuel since behind in
      if ltb (to_long j.seq o.highest) since
      then []
      else from_before
        ++ ((if leb since (to_long j.seq o.seq) then encode_update j o else []) ++ from_behind)
]

unfoldable pub encode_updates : ℕ → Bool → StoreJournal → List Chunk × StoreJournal
unfolding encode_range bump_seq
encode_updates since last j = (
  encode_range j (length j.changes) since j.changes ++ (if last then ([], true) ∷ [] else []),
  bump_seq false j,
)

-- The check of `keyToBuffer`, in 32 bits.
unfoldable pub key_to_buffer_ok : StoreJournal → ℕ → ℕ → Bool
key_to_buffer_ok j key len = len == 0 || leb ((key + len) % 2 ^ 32) (length j.buffer)

-- `memcpy` into the store.
unfoldable pub copy_to : Bytes → ℕ → Bytes → Bytes
copy_to buffer key bytes = take key buffer ++ (bytes ++ drop (key + length bytes) buffer)

-- What `decodeUpdates` does: all are applied, with its result; it stops, with what is left; or
-- `memcpy` writes past the end of the store.
pub data Decoded : Type 0 where
  applied : StoreJournal → ℕ → Decoded
  failed : StoreJournal → Bytes → Decoded
  overrun : Decoded
  out_of_fuel : Decoded

module _ (sort : List ObjectInfo → List ObjectInfo) where
  -- One update is copied and recorded.
  unfoldable pub apply_update : Bool → ℕ → Bytes → StoreJournal → StoreJournal
  unfolding copy_to changed
  apply_update record_all key bytes j =
      changed sort key (length bytes) record_all (record j { buffer = copy_to j.buffer key bytes })

  unfoldable pub decode_updates : ℕ → Bool → Bytes → StoreJournal → Decoded
  unfolding decode_key key_to_buffer_ok apply_update bump_seq
  decode_updates fuel record_all [] j = let j' = bump_seq false j in applied j' j'.seq
  decode_updates zero record_all (b ∷ bs) j = out_of_fuel
  decode_updates (suc fuel) record_all (b ∷ bs) j =
      let (key, more, key_ok) = decode_key j (b ∷ bs) in
      let (size, left, size_ok) = decode_key j more in
      let rest =
        decode_updates fuel record_all (drop size left)
          (apply_update record_all key (take size left) j) in
      if not (key_ok && size_ok && key_to_buffer_ok j key size) || ltb (length left) size
      then failed j left
      else if ltb 0 size && ltb (length j.buffer) (key + size)
      then overrun
      else rest
