-- ===== src/Synchronizer/StoreJournal/Message/Limits.antt =====
-- keySize, encodeKey, decodeKey and keyToBuffer of StoreJournal (src/synchronizer.cpp) where the
-- store is large.
use libstored.Prelude.{
  ℕ, suc, ◌≡◌, refl, ap, ◌∙◌, Bool, true, false, ◌&&◌, List, [], ◌++◌, arith, length, length-append,
  inr,
}
use libstored.Prelude.{◌+◌, ◌^◌, ◌<◌, ◌≤◌, ltb}
use libstored.Protocol.{Bytes}
use libstored.Synchronizer.Journal.{ObjectInfo}
use libstored.Synchronizer.StoreJournal.{StoreJournal, key_size_of, initial}
use libstored.Synchronizer.StoreJournal.Message.{
  overrun, has_type, encode_key, decode_key, decode_updates, key_to_buffer_ok,
}
use libstored.Synchronizer.StoreJournal.Message.Numbers.{
  HasType, key_bytes, length-key_bytes, decode_key-encode_key,
}
use libstored.Synchronizer.StoreJournal.Message.Round.{conclude, opened}

three_bytes : (size : ℕ) → 2 ^ 16 ≤ size → size < 2 ^ 24 → key_size_of size ≡ 3
unfolding key_size_of
three_bytes size low high = ground arith

-- In a store whose size takes three bytes, `encodeKey` encodes nothing, and `decodeKey` fails on
-- every buffer: there is no case for this key size.
encode_key_three_bytes :
    (little : Bool) (buffer : Bytes)
    → 2 ^ 16 ≤ length buffer
    → length buffer < 2 ^ 24
    → (key : ℕ) (bytes : Bytes)
    → (encode_key (initial little buffer) key ≡ [])
      × ((decode_key (initial little buffer) bytes).2 ≡ false)
unfolding encode_key decode_key initial has_type
encode_key_three_bytes little buffer low high key bytes =
    rw (three_bytes (length buffer) low high) (refl, ground arith)

-- In a store below 2^32 bytes whose keys take four bytes, an update whose key and length, below
-- 2^32 each, add up to 2^32 or to no more than the size above it, passes the check of `keyToBuffer`,
-- and `decodeUpdates` writes past the end of the store.
pub decode_updates_overrun :
    (sort : List ObjectInfo → List ObjectInfo) (record_all : Bool) (fuel : ℕ) (j : StoreJournal)
    → j.key_size ≡ 4
    → length j.buffer < 2 ^ 32
    → (key : ℕ) (bytes : Bytes) → key < 2 ^ 32
    → length bytes < 2 ^ 32
    → 2 ^ 32 ≤ key + length bytes
    → key + length bytes ≤ 2 ^ 32 + length j.buffer
    → (more : Bytes)
    → decode_updates sort
        (suc fuel)
        record_all
        (key_bytes j.little j.key_size key
          ++ (key_bytes j.little j.key_size (length bytes) ++ (bytes ++ more)))
        j
      ≡ overrun
decode_updates_overrun sort record_all fuel j four size key bytes k l low high more =
    opened sort record_all fuel (key_bytes j.little j.key_size key ++ rest) j (
      omega (
        arith,
        four,
        length-append (key_bytes j.little j.key_size key) rest,
        length-key_bytes j.little j.key_size key typed,
      ))
    ∙ ap (λ f. conclude sort record_all fuel j f.0 f.2 (decode_key j f.1))
        (decode_key-encode_key j key rest typed (rw four k)).1
    ∙ ap (conclude sort record_all fuel j key true)
        (decode_key-encode_key j (length bytes) (bytes ++ more) typed (rw four l)).1
    ∙ rw (accepted, enough, past) refl
  where
    typed : HasType j.key_size
    typed = inr (inr four)

    rest : Bytes
    rest = key_bytes j.little j.key_size (length bytes) ++ (bytes ++ more)

    accepted : key_to_buffer_ok j key (length bytes) ≡ true
    accepted = unfold key_to_buffer_ok in ground (arith, low, high, k, l, size)

    enough : ltb (length (bytes ++ more)) (length bytes) ≡ false
    enough = ground (arith, length-append bytes more)

    past : (ltb 0 (length bytes) && ltb (length j.buffer) (key + length bytes)) ≡ true
    past = ground (arith, low, k, size)
