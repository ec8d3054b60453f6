-- ===== src/Protocol/Crc16/Detect.antt =====
-- Which corrupted frames Crc16Layer::decode (src/protocol.cpp) drops.
use libstored.Prelude.{
  ℕ, ◌≡◌, ◌≢◌, refl, sym, ap, ap₂, ◌∙◌, Bool, true, false, List, [], ◌∷◌, ◌++◌, ◌==◌, if◌then◌else◌,
  ◌&&◌, ◌⊎◌, inl, inr,
}
use libstored.Prelude.{
  ◌*◌, ◌+◌, ◌-◌, ◌%◌, ◌/◌, ◌<◌, ◌^◌, bit_xor, bit_or, ltb, all_below, all_below_sound, get_or,
  length, length-append, take-append_left, get_or-append_right, All, All-append, IsByte, arith,
  ==_iff,
}
use libstored.Prelude.Xor.{xor_fields, xor_right_injective, xor-zero, xor_left_injective}
use libstored.Protocol.{Bytes}
use libstored.Protocol.Crc16.Table.{crc16_table}
use libstored.Protocol.Crc16.{compute, update, received, decode, init}

-- The index of an entry, by the entry's low byte.
abbrev inverse : List ℕ
inverse =
    0x00 ∷ 0x26 ∷ 0x4c ∷ 0x6a ∷ 0x99 ∷ 0xbf ∷ 0xd5 ∷ 0xf3 ∷ 0x89 ∷ 0xaf ∷ 0xc5 ∷ 0xe3 ∷ 0x10 ∷ 0x36
    ∷ 0x5c ∷ 0x7a ∷ 0xa8 ∷ 0x8e ∷ 0xe4 ∷ 0xc2 ∷ 0x31 ∷ 0x17 ∷ 0x7d ∷ 0x5b ∷ 0x21 ∷ 0x07 ∷ 0x6d
    ∷ 0x4b ∷ 0xb8 ∷ 0x9e ∷ 0xf4 ∷ 0xd2 ∷ 0xea ∷ 0xcc ∷ 0xa6 ∷ 0x80 ∷ 0x73 ∷ 0x55 ∷ 0x3f ∷ 0x19
    ∷ 0x63 ∷ 0x45 ∷ 0x2f ∷ 0x09 ∷ 0xfa ∷ 0xdc ∷ 0xb6 ∷ 0x90 ∷ 0x42 ∷ 0x64 ∷ 0x0e ∷ 0x28 ∷ 0xdb
    ∷ 0xfd ∷ 0x97 ∷ 0xb1 ∷ 0xcb ∷ 0xed ∷ 0x87 ∷ 0xa1 ∷ 0x52 ∷ 0x74 ∷ 0x1e ∷ 0x38 ∷ 0x6e ∷ 0x48
    ∷ 0x22 ∷ 0x04 ∷ 0xf7 ∷ 0xd1 ∷ 0xbb ∷ 0x9d ∷ 0xe7 ∷ 0xc1 ∷ 0xab ∷ 0x8d ∷ 0x7e ∷ 0x58 ∷ 0x32
    ∷ 0x14 ∷ 0xc6 ∷ 0xe0 ∷ 0x8a ∷ 0xac ∷ 0x5f ∷ 0x79 ∷ 0x13 ∷ 0x35 ∷ 0x4f ∷ 0x69 ∷ 0x03 ∷ 0x25
    ∷ 0xd6 ∷ 0xf0 ∷ 0x9a ∷ 0xbc ∷ 0x84 ∷ 0xa2 ∷ 0xc8 ∷ 0xee ∷ 0x1d ∷ 0x3b ∷ 0x51 ∷ 0x77 ∷ 0x0d
    ∷ 0x2b ∷ 0x41 ∷ 0x67 ∷ 0x94 ∷ 0xb2 ∷ 0xd8 ∷ 0xfe ∷ 0x2c ∷ 0x0a ∷ 0x60 ∷ 0x46 ∷ 0xb5 ∷ 0x93
    ∷ 0xf9 ∷ 0xdf ∷ 0xa5 ∷ 0x83 ∷ 0xe9 ∷ 0xcf ∷ 0x3c ∷ 0x1a ∷ 0x70 ∷ 0x56 ∷ 0xdd ∷ 0xfb ∷ 0x91
    ∷ 0xb7 ∷ 0x44 ∷ 0x62 ∷ 0x08 ∷ 0x2e ∷ 0x54 ∷ 0x72 ∷ 0x18 ∷ 0x3e ∷ 0xcd ∷ 0xeb ∷ 0x81 ∷ 0xa7
    ∷ 0x75 ∷ 0x53 ∷ 0x39 ∷ 0x1f ∷ 0xec ∷ 0xca ∷ 0xa0 ∷ 0x86 ∷ 0xfc ∷ 0xda ∷ 0xb0 ∷ 0x96 ∷ 0x65
    ∷ 0x43 ∷ 0x29 ∷ 0x0f ∷ 0x37 ∷ 0x11 ∷ 0x7b ∷ 0x5d ∷ 0xae ∷ 0x88 ∷ 0xe2 ∷ 0xc4 ∷ 0xbe ∷ 0x98
    ∷ 0xf2 ∷ 0xd4 ∷ 0x27 ∷ 0x01 ∷ 0x6b ∷ 0x4d ∷ 0x9f ∷ 0xb9 ∷ 0xd3 ∷ 0xf5 ∷ 0x06 ∷ 0x20 ∷ 0x4a
    ∷ 0x6c ∷ 0x16 ∷ 0x30 ∷ 0x5a ∷ 0x7c ∷ 0x8f ∷ 0xa9 ∷ 0xc3 ∷ 0xe5 ∷ 0xb3 ∷ 0x95 ∷ 0xff ∷ 0xd9
    ∷ 0x2a ∷ 0x0c ∷ 0x66 ∷ 0x40 ∷ 0x3a ∷ 0x1c ∷ 0x76 ∷ 0x50 ∷ 0xa3 ∷ 0x85 ∷ 0xef ∷ 0xc9 ∷ 0x1b
    ∷ 0x3d ∷ 0x57 ∷ 0x71 ∷ 0x82 ∷ 0xa4 ∷ 0xce ∷ 0xe8 ∷ 0x92 ∷ 0xb4 ∷ 0xde ∷ 0xf8 ∷ 0x0b ∷ 0x2d
    ∷ 0x47 ∷ 0x61 ∷ 0x59 ∷ 0x7f ∷ 0x15 ∷ 0x33 ∷ 0xc0 ∷ 0xe6 ∷ 0x8c ∷ 0xaa ∷ 0xd0 ∷ 0xf6 ∷ 0x9c
    ∷ 0xba ∷ 0x49 ∷ 0x6f ∷ 0x05 ∷ 0x23 ∷ 0xf1 ∷ 0xd7 ∷ 0xbd ∷ 0x9b ∷ 0x68 ∷ 0x4e ∷ 0x24 ∷ 0x02
    ∷ 0x78 ∷ 0x5e ∷ 0x34 ∷ 0x12 ∷ 0xe1 ∷ 0xc7 ∷ 0xad ∷ 0x8b ∷ []

entry : ℕ → ℕ
entry x = get_or crc16_table x 0

abbrev entry_test : ℕ → Bool
entry_test x = (get_or inverse (entry x % 256) 0 == x) && ltb (entry x) 65536

entry_table : all_below 256 entry_test ≡ true
unfolding all_below entry crc16_table
entry_table = refl

entry_facts : (x : ℕ) → IsByte x → (get_or inverse (entry x % 256) 0 ≡ x) × (entry x < 65536)
entry_facts x h = ground (arith, all_below_sound 256 entry_test x entry_table h)

-- The low bytes of the table tell its indexes apart.
entry_injective : (x y : ℕ) → IsByte x → IsByte y → entry x % 256 ≡ entry y % 256 → x ≡ y
entry_injective x y hx hy e =
    sym (entry_facts x hx).0 ∙ ap (λ v. get_or inverse v 0) e ∙ (entry_facts y hy).0

abbrev pub IsWord : ℕ → Type 0
IsWord r = r < 65536

index : ℕ → ℕ → ℕ
index b r = bit_xor b (r / 256)

index-IsByte : (b r : ℕ) → IsByte b → IsWord r → IsByte (index b r)
unfolding index
index-IsByte b r hb hr = (xor_fields 8 0 0 b (r / 256) hb (omega arith)).1

word_xor : (t u : ℕ) → bit_xor t (u * 256) ≡ bit_xor (t / 256) u * 256 + t % 256
word_xor t u =
    ap₂ bit_xor (whole t) (no_low u)
    ∙ (xor_fields 8 (t / 256) u (t % 256) 0 (omega arith) (omega arith)).0
    ∙ ap (λ x. bit_xor (t / 256) u * 256 + x) (xor-zero (t % 256))
  where
    whole : (t : ℕ) → t ≡ t / 256 * 2 ^ 8 + t % 256
    whole t = omega arith

    no_low : (u : ℕ) → u * 256 ≡ u * 2 ^ 8 + 0
    no_low u = omega arith

-- The two bytes of a new checksum: the low byte of the old one goes into the high byte, and the
-- low byte is the entry's.
compute_bytes :
    (b r : ℕ)
    → IsByte b
    → IsWord r
    → (compute b r ≡ bit_xor (entry (index b r) / 256) (r % 256) * 256 + entry (index b r) % 256)
      × (bit_xor (entry (index b r) / 256) (r % 256) < 256)
unfolding compute index entry
compute_bytes b r hb hr =
    let t = get_or crc16_table (bit_xor b (r / 256)) 0 in
    let small = entry_facts (bit_xor b (r / 256)) (index-IsByte b r hb hr) in
    (
      ap (bit_xor t) (shifted r) ∙ word_xor t (r % 256),
      (xor_fields 8 0 0 (t / 256) (r % 256) (high_byte small.1) (omega arith)).1,
    )
  where
    shifted : (r : ℕ) → r * 256 % 65536 ≡ r % 256 * 256
    shifted r = omega arith

    high_byte : {t : ℕ} → t < 65536 → t / 256 < 256
    high_byte h = omega arith

compute_injective :
    (b b' r r' : ℕ)
    → IsByte b
    → IsByte b'
    → IsWord r
    → IsWord r'
    → compute b r ≡ compute b' r'
    → (index b r ≡ index b' r') × (r % 256 ≡ r' % 256)
compute_injective b b' r r' hb hb' hr hr' e =
    let (c, top) = compute_bytes b r hb hr in
    let (c', top') = compute_bytes b' r' hb' hr' in
    let same =
      entry_injective (index b r) (index b' r') (index-IsByte b r hb hr)
        (index-IsByte b' r' hb' hr') (omega (arith, c, c', top, top')) in
    (
      same,
      xor_left_injective (entry (index b' r') / 256) (r % 256) (r' % 256) (
          ap (λ i. bit_xor (entry i / 256) (r % 256)) (sym same) ∙ omega (arith, c, c', top, top')),
    )

compute-IsWord : (b r : ℕ) → IsByte b → IsWord r → IsWord (compute b r)
compute-IsWord b r hb hr = let (c, top) = compute_bytes b r hb hr in omega (arith, c, top)

-- Two checksums stay apart behind the same byte.
compute_sum : (b r r' : ℕ) → IsByte b → IsWord r → IsWord r' → compute b r ≡ compute b r' → r ≡ r'
compute_sum b r r' hb hr hr' e =
    let (same, low) = compute_injective b b r r' hb hb hr hr' e in
    omega (arith, low, xor_left_injective b (r / 256) (r' / 256) (unfold index in same))

-- Two bytes in one place lead to two checksums.
compute_byte : (b b' r : ℕ) → IsByte b → IsByte b' → IsWord r → compute b r ≡ compute b' r → b ≡ b'
compute_byte b b' r hb hb' hr e =
    xor_right_injective b b' (r / 256)
      (unfold index in (compute_injective b b' r r hb hb' hr hr e).0)

pub update-append : (r : ℕ) (xs ys : Bytes) → update r (xs ++ ys) ≡ update (update r xs) ys
unfolding update
update-append r [] ys = refl
update-append r (b ∷ xs) ys = update-append (compute b r) xs ys

pub update-IsWord : (m : Bytes) (r : ℕ) → All IsByte m → IsWord r → IsWord (update r m)
unfolding update
update-IsWord [] r ok hr = hr
update-IsWord (b ∷ m) r ok hr = update-IsWord m (compute b r) ok.1 (compute-IsWord b r ok.0 hr)

update_injective :
    (m : Bytes) (r r' : ℕ) → All IsByte m → IsWord r → IsWord r' → update r m ≡ update r' m → r ≡ r'
unfolding update
update_injective [] r r' ok hr hr' e = e
update_injective (b ∷ m) r r' ok hr hr' e = compute_sum b r r' ok.0 hr hr' (
    update_injective m (compute b r) (compute b r') ok.1 (compute-IsWord b r ok.0 hr)
      (compute-IsWord b r' ok.0 hr') e)

-- `(high << 8) | low`, checked at all pairs of bytes.
or_table :
    all_below 256 (λ h. all_below 256 (λ l. bit_or (h * 256 % 65536) l == h * 256 + l)) ≡ true
unfolding all_below
or_table = refl

or_bytes : (h l : ℕ) → IsByte h → IsByte l → bit_or (h * 256 % 65536) l ≡ h * 256 + l
or_bytes h l hh hl = (==_iff _ _).0 (
    all_below_sound 256 _ l
      (all_below_sound 256 (λ h. all_below 256 (λ l. bit_or (h * 256 % 65536) l == h * 256 + l)) h
        or_table hh)
      hl)

-- A frame is taken if its last two bytes are the checksum of the others, and dropped if not.
pub crc16_decode_frame :
    (m : Bytes) (h l : ℕ)
    → IsByte h
    → IsByte l
    → decode (m ++ (h ∷ l ∷ [])) ≡ (if update init m == h * 256 + l then m ∷ [] else [])
unfolding decode received
crc16_decode_frame m h l hh hl =
    let frame = m ++ (h ∷ l ∷ []) in
    let n : length frame ≡ length m + 2 = length-append m (h ∷ l ∷ []) in
    rw
      (
        long_enough (length frame) (length m) n,
        take-append_left m (h ∷ l ∷ []) (length frame - 2) (omega arith),
        get_or-append_right m (h ∷ l ∷ []) (length frame - 2) 0 0 (omega arith),
        get_or-append_right m (h ∷ l ∷ []) (length frame - 1) 1 0 (omega arith),
        or_bytes h l hh hl,
      )
      refl
  where
    long_enough : (n k : ℕ) → n ≡ k + 2 → ltb n 2 ≡ false
    long_enough n k e = ground arith

-- One byte of the payload is replaced by another.
crc16_decode_payload_error :
    (pre post : Bytes) (b b' : ℕ)
    → All IsByte pre
    → All IsByte post
    → IsByte b
    → IsByte b'
    → b ≢ b'
    → let crc = update init (pre ++ (b ∷ post)) in
      decode ((pre ++ (b' ∷ post)) ++ (crc / 256 ∷ crc % 256 ∷ [])) ≡ []
crc16_decode_payload_error pre post b b' hpre hpost hb hb' ne =
    let r = update init pre in
    let word = update-IsWord pre init hpre (omega arith) in
    let crc = update init (pre ++ (b ∷ post)) in
    let crc_word : IsWord crc =
      update-IsWord (pre ++ (b ∷ post)) init (All-append IsByte pre (b ∷ post) hpre (hb, hpost))
        (omega arith) in
    rw
      (
        crc16_decode_frame (pre ++ (b' ∷ post)) (crc / 256) (crc % 256) (omega arith) (omega arith),
        unequal (pre ++ (b' ∷ post)) crc_word (λ e.
            apart
              (sym (update-append init pre (b' ∷ post)) ∙ e ∙ update-append init pre (b ∷ post))),
      )
      refl
  where
    unequal :
        (m : Bytes) {c : ℕ}
        → IsWord c
        → update init m ≢ c
        → (update init m == c / 256 * 256 + c % 256) ≡ false
    unequal m {c} hc ne = ground arith

    apart : update (update init pre) (b' ∷ post) ≢ update (update init pre) (b ∷ post)
    apart e = ne (
        sym (
          compute_byte b' b (update init pre) hb' hb (update-IsWord pre init hpre (omega arith)) (
            update_injective post (compute b' (update init pre)) (compute b (update init pre)) hpost
              (compute-IsWord b' (update init pre) hb' (update-IsWord pre init hpre (omega arith)))
              (compute-IsWord b (update init pre) hb (update-IsWord pre init hpre (omega arith)))
              (unfold update in e))))

-- The checksum at the end, with one of its bytes replaced or both.
crc16_decode_sum_error :
    (m : Bytes) (h l : ℕ)
    → IsByte h
    → IsByte l
    → (h ≢ update init m / 256) ⊎ (l ≢ update init m % 256)
    → decode (m ++ (h ∷ l ∷ [])) ≡ []
crc16_decode_sum_error m h l hh hl wrong = rw (crc16_decode_frame m h l hh hl, differs wrong) refl
  where
    differs :
        (h ≢ update init m / 256) ⊎ (l ≢ update init m % 256)
        → (update init m == h * 256 + l) ≡ false
    differs (inl n) = ground (arith, hh, hl, n)
    differs (inr n) = ground (arith, hh, hl, n)

-- A frame with one wrong byte is dropped: where a byte of the payload is replaced by another byte,
-- and where the two last bytes, with one of them replaced or both, are not the checksum of a
-- payload `m`.
pub crc16_decode_byte_error :
    (pre post m : Bytes) (b b' h l : ℕ)
    → All IsByte pre
    → All IsByte post
    → IsByte b
    → IsByte b'
    → b ≢ b'
    → IsByte h
    → IsByte l
    → (h ≢ update init m / 256) ⊎ (l ≢ update init m % 256)
    → let crc = update init (pre ++ (b ∷ post)) in
      (decode ((pre ++ (b' ∷ post)) ++ (crc / 256 ∷ crc % 256 ∷ [])) ≡ [])
      × (decode (m ++ (h ∷ l ∷ [])) ≡ [])
crc16_decode_byte_error pre post m b b' h l hpre hpost hb hb' ne hh hl wrong = (
  crc16_decode_payload_error pre post b b' hpre hpost hb hb' ne,
  crc16_decode_sum_error m h l hh hl wrong,
)
