-- ===== src/Protocol/Crc8/Detect.antt =====
-- Which corrupted frames Crc8Layer::decode (src/protocol.cpp) lets through.
use libstored.Prelude.{
  ℕ, ◌≡◌, ◌≢◌, refl, sym, ap, ◌∙◌, Bool, true, false, List, [], ◌∷◌, ◌++◌, ◌==◌, if◌then◌else◌, ◌⊎◌,
  inl, inr, ◌&&◌,
}
use libstored.Prelude.{
  ◌%◌, ◌/◌, bit_xor, ltb, all_below, all_below_sound, get_or, length, length-append, take-snoc,
  get_or-snoc, All, IsByte, arith,
}
use libstored.Prelude.Xor.{
  xor_fields, xor_comm, xor_assoc, xor_right_injective, xor_low, xor_cancel_left, xor_shared,
  xor_shared_left,
}
use libstored.Protocol.{Bytes}
use libstored.Protocol.Crc8.Table.{crc8_table}
use libstored.Protocol.Crc8.{compute, update, check, decode, init}

-- The difference that the checksum does not see.
abbrev pub blind : ℕ
blind = 0xd3

abbrev inverse : List ℕ
inverse =
    0x00 ∷ 0x54 ∷ 0x7b ∷ 0x2f ∷ 0x25 ∷ 0x71 ∷ 0x5e ∷ 0x0a ∷ 0x4a ∷ 0x1e ∷ 0x31 ∷ 0x65 ∷ 0x6f ∷ 0x3b
    ∷ 0x14 ∷ 0x40 ∷ 0x47 ∷ 0x13 ∷ 0x3c ∷ 0x68 ∷ 0x62 ∷ 0x36 ∷ 0x19 ∷ 0x4d ∷ 0x0d ∷ 0x59 ∷ 0x76
    ∷ 0x22 ∷ 0x28 ∷ 0x7c ∷ 0x53 ∷ 0x07 ∷ 0x5d ∷ 0x09 ∷ 0x26 ∷ 0x72 ∷ 0x78 ∷ 0x2c ∷ 0x03 ∷ 0x57
    ∷ 0x17 ∷ 0x43 ∷ 0x6c ∷ 0x38 ∷ 0x32 ∷ 0x66 ∷ 0x49 ∷ 0x1d ∷ 0x1a ∷ 0x4e ∷ 0x61 ∷ 0x35 ∷ 0x3f
    ∷ 0x6b ∷ 0x44 ∷ 0x10 ∷ 0x50 ∷ 0x04 ∷ 0x2b ∷ 0x7f ∷ 0x75 ∷ 0x21 ∷ 0x0e ∷ 0x5a ∷ 0x69 ∷ 0x3d
    ∷ 0x12 ∷ 0x46 ∷ 0x4c ∷ 0x18 ∷ 0x37 ∷ 0x63 ∷ 0x23 ∷ 0x77 ∷ 0x58 ∷ 0x0c ∷ 0x06 ∷ 0x52 ∷ 0x7d
    ∷ 0x29 ∷ 0x2e ∷ 0x7a ∷ 0x55 ∷ 0x01 ∷ 0x0b ∷ 0x5f ∷ 0x70 ∷ 0x24 ∷ 0x64 ∷ 0x30 ∷ 0x1f ∷ 0x4b
    ∷ 0x41 ∷ 0x15 ∷ 0x3a ∷ 0x6e ∷ 0x34 ∷ 0x60 ∷ 0x4f ∷ 0x1b ∷ 0x11 ∷ 0x45 ∷ 0x6a ∷ 0x3e ∷ 0x7e
    ∷ 0x2a ∷ 0x05 ∷ 0x51 ∷ 0x5b ∷ 0x0f ∷ 0x20 ∷ 0x74 ∷ 0x73 ∷ 0x27 ∷ 0x08 ∷ 0x5c ∷ 0x56 ∷ 0x02
    ∷ 0x2d ∷ 0x79 ∷ 0x39 ∷ 0x6d ∷ 0x42 ∷ 0x16 ∷ 0x1c ∷ 0x48 ∷ 0x67 ∷ 0x33 ∷ []

-- Of an index and the one that differs from it by `blind`, the lower.
canonical : ℕ → ℕ
canonical x = if ltb x 128 then x else bit_xor x blind

entry : ℕ → ℕ
entry x = get_or crc8_table x 0

abbrev entry_test : ℕ → Bool
entry_test x =
    (get_or inverse (entry x / 2) 0 == canonical x)
    && (entry (bit_xor x blind) == entry x)
    && (entry x % 2 == 0)
    && ltb (entry x) 256

entry_table : all_below 256 entry_test ≡ true
unfolding all_below entry canonical crc8_table
entry_table = refl

-- The table tells two indexes apart unless they differ by `blind`, and its entries are even bytes.
entry_facts :
    (x : ℕ)
    → IsByte x
    → (get_or inverse (entry x / 2) 0 ≡ canonical x)
      × (entry (bit_xor x blind) ≡ entry x)
      × (entry x % 2 ≡ 0)
      × IsByte (entry x)
entry_facts x h = ground (arith, all_below_sound 256 entry_test x entry_table h)

canonical_injective : (x y : ℕ) → canonical x ≡ canonical y → (x ≡ y) ⊎ (bit_xor x y ≡ blind)
unfolding canonical
canonical_injective x y e = ground (
  arith,
  xor_cancel_left x blind,
  xor_cancel_left y blind,
  xor_comm x y,
  xor_right_injective x y blind,
)

entry_injective :
    (x y : ℕ) → IsByte x → IsByte y → entry x ≡ entry y → (x ≡ y) ⊎ (bit_xor x y ≡ blind)
entry_injective x y hx hy e =
    canonical_injective x y
      (sym (entry_facts x hx).0 ∙ ap (λ v. get_or inverse (v / 2) 0) e ∙ (entry_facts y hy).0)

-- A checksum behind at least one byte.
abbrev pub IsSum : ℕ → Type 0
IsSum r = IsByte r × (r % 2 ≡ 0)

xor-IsByte : (x y : ℕ) → IsByte x → IsByte y → IsByte (bit_xor x y)
xor-IsByte x y hx hy = (xor_fields 8 0 0 x y hx hy).1

compute-entry : (b r : ℕ) → IsByte b → IsByte r → compute b r ≡ entry (bit_xor b r)
unfolding compute entry
compute-entry b r hb hr = ap (λ i. get_or crc8_table i 0) (omega (arith, xor-IsByte b r hb hr))

compute-IsSum : (b r : ℕ) → IsByte b → IsByte r → IsSum (compute b r)
compute-IsSum b r hb hr =
    let facts = entry_facts (bit_xor b r) (xor-IsByte b r hb hr) in
    rw (compute-entry b r hb hr) (facts.3, facts.2)

-- Two bytes in one place lead to two checksums, unless they differ by `blind`.
compute_byte :
    (b b' r : ℕ)
    → IsByte b
    → IsByte b'
    → IsByte r
    → compute b r ≡ compute b' r
    → (b ≡ b') ⊎ (bit_xor b b' ≡ blind)
compute_byte b b' r hb hb' hr e =
    elim (entry_injective (bit_xor b r) (bit_xor b' r) (xor-IsByte b r hb hr)
      (xor-IsByte b' r hb' hr) (sym (compute-entry b r hb hr) ∙ e ∙ compute-entry b' r hb' hr)) [
        | inl same ↦ inl (xor_right_injective b b' r same)
        | inr apart ↦ inr (sym (xor_shared b b' r) ∙ apart)
      ]

compute-blind : (b r : ℕ) → IsByte b → IsByte r → compute (bit_xor b blind) r ≡ compute b r
compute-blind b r hb hr =
    compute-entry (bit_xor b blind) r (xor-IsByte b blind hb (omega arith)) hr
    ∙ ap entry (xor_assoc b blind r ∙ ap (bit_xor b) (xor_comm blind r) ∙ sym (xor_assoc b r blind))
    ∙ (entry_facts (bit_xor b r) (xor-IsByte b r hb hr)).1
    ∙ sym (compute-entry b r hb hr)

-- Two checksums stay apart behind the same byte.
compute_sum : (b r r' : ℕ) → IsByte b → IsSum r → IsSum r' → compute b r ≡ compute b r' → r ≡ r'
compute_sum b r r' hb hr hr' e =
    elim (entry_injective (bit_xor b r) (bit_xor b r') (xor-IsByte b r hb hr.0)
      (xor-IsByte b r' hb hr'.0)
      (sym (compute-entry b r hb hr.0) ∙ e ∙ compute-entry b r' hb hr'.0)) [
        | inl same ↦ xor_right_injective r r' b (xor_comm r b ∙ same ∙ xor_comm b r')
        | inr apart ↦
            absurd (omega (arith, xor_low r r', sym (xor_shared_left r r' b) ∙ apart, hr.1, hr'.1))
      ]

pub update-append : (r : ℕ) (xs ys : Bytes) → update r (xs ++ ys) ≡ update (update r xs) ys
unfolding update
update-append r [] ys = refl
update-append r (b ∷ xs) ys = update-append (compute b r) xs ys

pub update-IsByte : (m : Bytes) (r : ℕ) → All IsByte m → IsByte r → IsByte (update r m)
unfolding update
update-IsByte [] r ok hr = hr
update-IsByte (b ∷ m) r ok hr = update-IsByte m (compute b r) ok.1 (compute-IsSum b r ok.0 hr).0

update_injective :
    (m : Bytes) (r r' : ℕ) → All IsByte m → IsSum r → IsSum r' → update r m ≡ update r' m → r ≡ r'
unfolding update
update_injective [] r r' ok hr hr' e = e
update_injective (b ∷ m) r r' ok hr hr' e = compute_sum b r r' ok.0 hr hr' (
    update_injective m (compute b r) (compute b r') ok.1 (compute-IsSum b r ok.0 hr.0)
      (compute-IsSum b r' ok.0 hr'.0) e)

check-update : (m : Bytes) (r : ℕ) → check r m ≡ update r m
unfolding check update
check-update [] r = refl
check-update (b ∷ m) r = rw (compute_comm r b) (check-update m (compute b r))
  where
    compute_comm : (x y : ℕ) → compute x y ≡ compute y x
    compute_comm x y = unfold compute in rw (xor_comm x y)

snoc_length : (m : Bytes) (c : ℕ) → (length (m ++ (c ∷ [])) == 0) ≡ false
snoc_length m c = ground (arith, length-append m (c ∷ []))

-- A frame is taken if its last byte is the checksum of the others, and dropped if not.
pub crc8_decode_frame :
    (m : Bytes) (c : ℕ) → decode (m ++ (c ∷ [])) ≡ (if update init m == c then m ∷ [] else [])
unfolding decode
crc8_decode_frame m c = rw (snoc_length m c, take-snoc m c, get_or-snoc m c 0, check-update m init)

sum_apart :
    (post : Bytes) (b b' r : ℕ)
    → IsByte b
    → IsByte b'
    → IsByte r
    → All IsByte post
    → b ≢ b'
    → bit_xor b b' ≢ blind
    → update r (b' ∷ post) ≢ update r (b ∷ post)
unfolding update
sum_apart post b b' r hb hb' hr hp ne seen e =
    elim (compute_byte b b' r hb hb' hr (
      sym (
        update_injective post (compute b' r) (compute b r) hp (compute-IsSum b' r hb' hr)
          (compute-IsSum b r hb hr) e))) [ inl same ↦ ne same | inr apart ↦ seen apart ]

sum_blind :
    (post : Bytes) (b b' r : ℕ)
    → IsByte b
    → IsByte r
    → bit_xor b b' ≡ blind
    → update r (b' ∷ post) ≡ update r (b ∷ post)
unfolding update
sum_blind post b b' r hb hr e =
    ap (λ c. update c post)
      (ap (λ x. compute x r)
          (sym (xor_cancel_left b b') ∙ ap (λ t. bit_xor t b) e ∙ xor_comm blind b)
        ∙ compute-blind b r hb hr)

-- One byte of a frame is replaced by another. Where it is a byte of the payload, the frame is
-- dropped, but for one difference: two bytes that differ by 0xd3 have the same checksum, and the
-- peer takes the corrupted payload. Where it is the checksum of a payload `m`, the frame is dropped
-- whatever the difference is.
pub crc8_decode_byte_error :
    (pre post m : Bytes) (b b' c : ℕ)
    → All IsByte pre
    → All IsByte post
    → IsByte b
    → IsByte b'
    → b ≢ b'
    → c ≢ update init m
    → (decode ((pre ++ (b' ∷ post)) ++ (update init (pre ++ (b ∷ post)) ∷ []))
        ≡ (if bit_xor b b' == blind then (pre ++ (b' ∷ post)) ∷ [] else []))
      × (decode (m ++ (c ∷ [])) ≡ [])
crc8_decode_byte_error pre post m b b' c hpre hpost hb hb' ne nc = (payload, checksum)
  where
    sum_byte : IsByte (update init pre)
    sum_byte = update-IsByte pre init hpre (omega arith)

    checksum : decode (m ++ (c ∷ [])) ≡ []
    checksum =
        let wrong : (update init m == c) ≡ false = ground (arith, nc) in
        rw (crc8_decode_frame m c, wrong) refl

    payload :
        decode ((pre ++ (b' ∷ post)) ++ (update init (pre ++ (b ∷ post)) ∷ []))
        ≡ (if bit_xor b b' == blind then (pre ++ (b' ∷ post)) ∷ [] else [])
    payload =
        rw
          (
            crc8_decode_frame (pre ++ (b' ∷ post)) (update init (pre ++ (b ∷ post))),
            update-append init pre (b' ∷ post),
            update-append init pre (b ∷ post),
          )
          (ground (
            arith,
            sum_apart post b b' (update init pre) hb hb' sum_byte hpost ne,
            sum_blind post b b' (update init pre) hb sum_byte,
          ))
