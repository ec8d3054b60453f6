-- ===== src/Synchronizer/StoreJournal/Message/Numbers.antt =====
-- encodeKey and decodeKey of StoreJournal (src/synchronizer.cpp).
use libstored.Prelude.{
  ℕ, ◌≡◌, refl, sym, ap, ap₂, ◌∙◌, Bool, true, false, [], ◌∷◌, ◌++◌, ◌⊎◌, inl, inr, arith, length,
  length-append, drop, take-append_left, drop-append,
}
use libstored.Prelude.{if◌then◌else◌, ◌*◌, ◌^◌, ◌<◌, ltb}
use libstored.Protocol.{Bytes}
use libstored.Synchronizer.StoreJournal.{StoreJournal}
use libstored.Synchronizer.StoreJournal.Message.{
  to_little, to_big, of_little, of_big, has_type, encode_key, decode_key,
}

-- The key sizes that there are types for.
abbrev pub HasType : ℕ → Type 0
HasType n = (n ≡ 1) ⊎ ((n ≡ 2) ⊎ (n ≡ 4))

-- The bytes that `encodeKey` writes.
abbrev pub key_bytes : Bool → ℕ → ℕ → Bytes
key_bytes little n key = if little then to_little n key else to_big n key []

abbrev pub key_of : Bool → Bytes → ℕ
key_of little bytes = if little then of_little bytes else of_big 0 bytes

pub length-key_bytes : (little : Bool) (n key : ℕ) → HasType n → length (key_bytes little n key) ≡ n
length-key_bytes true n key (inl e) = rw e refl
length-key_bytes true n key (inr (inl e)) = rw e refl
length-key_bytes true n key (inr (inr e)) = rw e refl
length-key_bytes false n key (inl e) = rw e refl
length-key_bytes false n key (inr (inl e)) = rw e refl
length-key_bytes false n key (inr (inr e)) = rw e refl

read_1 : (little : Bool) (key : ℕ) → key < 2 ^ 8 → key_of little (key_bytes little 1 key) ≡ key
read_1 true key h = omega (arith, h)
read_1 false key h = omega (arith, h)

read_2 : (little : Bool) (key : ℕ) → key < 2 ^ 16 → key_of little (key_bytes little 2 key) ≡ key
read_2 true key h = omega (arith, h)
read_2 false key h = omega (arith, h)

read_4 : (little : Bool) (key : ℕ) → key < 2 ^ 32 → key_of little (key_bytes little 4 key) ≡ key
read_4 true key h = omega (arith, h)
read_4 false key h = omega (arith, h)

key_of-key_bytes :
    (little : Bool) (n key : ℕ)
    → HasType n
    → key < 2 ^ (8 * n)
    → key_of little (key_bytes little n key) ≡ key
key_of-key_bytes little n key (inl e) = rw e (read_1 little key)
key_of-key_bytes little n key (inr (inl e)) = rw e (read_2 little key)
key_of-key_bytes little n key (inr (inr e)) = rw e (read_4 little key)

pub has_type_lem : (n : ℕ) → HasType n → has_type n ≡ true
unfolding has_type
has_type_lem n (inl e) = rw e refl
has_type_lem n (inr (inl e)) = rw e refl
has_type_lem n (inr (inr e)) = rw e refl

-- `decodeKey` reads the key of `encodeKey` back, and leaves what follows.
pub decode_key-encode_key :
    (j : StoreJournal) (key : ℕ) (rest : Bytes)
    → HasType j.key_size
    → key < 2 ^ (8 * j.key_size)
    → (encode_key j key ≡ (key_bytes j.little j.key_size key, false) ∷ [])
      × (decode_key j (key_bytes j.little j.key_size key ++ rest) ≡ (key, rest, true))
unfolding encode_key decode_key
decode_key-encode_key j key rest h k =
    let long = length-key_bytes j.little j.key_size key h in
    let enough : ltb (length (key_bytes j.little j.key_size key ++ rest)) j.key_size ≡ false =
      ground (arith, long, length-append (key_bytes j.little j.key_size key) rest) in
    (
      rw (has_type_lem j.key_size h) refl,
      rw
          (
            has_type_lem j.key_size h,
            enough,
            take-append_left (key_bytes j.little j.key_size key) rest j.key_size (sym long),
          )
          (ap₂ (λ v r. (v, r, true)) (key_of-key_bytes j.little j.key_size key h k)
            (ap (λ n. drop n (key_bytes j.little j.key_size key ++ rest)) (sym long)
              ∙ drop-append (key_bytes j.little j.key_size key) rest)),
    )
