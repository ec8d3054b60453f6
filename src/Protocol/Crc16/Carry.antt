-- ===== src/Protocol/Crc16/Carry.antt =====
-- Crc16Layer (src/protocol.cpp): the layer carries messages, within the MTU.
use libstored.Prelude.{ℕ, ◌≡◌, refl, Bool, true, false, List, [], ◌∷◌, ◌++◌, All, All-append}
use libstored.Prelude.{
  ◌/◌, ◌*◌, ◌%◌, ◌≢◌, arith, append_assoc, append-nil, IsByte, ◌≤◌, ◌+◌, length, length-append,
  ◌==◌,
}
use libstored.Protocol.{Bytes, Chunk, frames}
use libstored.Protocol.Layer.{encode_all, deliver}
use libstored.Protocol.Layer.Stacked.{AllBytes, carries_all}
use libstored.Protocol.Parts.{IsPart, written, Piecewise, piecewise-Carries}
use libstored.Protocol.Crc16.{init, update, encode, decode, mtu, crc16_layer}
use libstored.Protocol.Crc16.Detect.{IsWord, crc16_decode_frame, update-append, update-IsWord}

-- `m_crc` is the checksum of what of the message went out.
abbrev pub Crc16Sync : ℕ → Bytes → Bytes → Type 0
Crc16Sync crc acc pend = (crc ≡ update init acc) × (pend ≡ acc) × All IsByte acc

pub encode-IsPart : (crc : ℕ) (b : Bytes) (last : Bool) → IsPart last (encode crc b last).1
unfolding encode
encode-IsPart crc b true = (refl, refl)
encode-IsPart crc b false = refl

pub encode-IsByte :
    (crc : ℕ) (acc pend b : Bytes) (last : Bool)
    → Crc16Sync crc acc pend
    → All IsByte b
    → All IsByte (written (encode crc b last).1)
unfolding encode
encode-IsByte crc acc pend b true (e, sent, bytes) ok =
    All-append IsByte b _ ok (high_byte sum_word, (low_byte (update crc b), tt))
  where
    sum_word : IsWord (update crc b)
    sum_word = update-IsWord b crc ok (rw e (update-IsWord acc init bytes (omega arith)))

    high_byte : {c : ℕ} → IsWord c → IsByte (c / 256)
    high_byte h = omega arith

    low_byte : (c : ℕ) → IsByte (c % 256)
    low_byte c = omega arith
encode-IsByte crc acc pend b false sync ok = rw append-nil ok

pub crc16_more :
    (crc : ℕ) (acc pend b : Bytes)
    → Crc16Sync crc acc pend
    → All IsByte b
    → Crc16Sync (encode crc b false).0 (acc ++ b) (pend ++ written (encode crc b false).1)
unfolding encode
crc16_more crc acc pend b (e, sent, bytes) ok = (
  rw (e, update-append init acc b) refl,
  rw (sent, append-nil) refl,
  All-append IsByte acc b bytes ok,
)

pub crc16_final :
    (crc : ℕ) (acc pend b : Bytes)
    → Crc16Sync crc acc pend
    → All IsByte b
    → (decode (pend ++ written (encode crc b true).1) ≡ (acc ++ b) ∷ [])
      × Crc16Sync (encode crc b true).0 [] []
unfolding encode
crc16_final crc acc pend b (e, sent, bytes) ok =
    let c = update init (acc ++ b) in
    let word : IsWord c =
      update-IsWord (acc ++ b) init (All-append IsByte acc b bytes ok) (omega arith) in
    (
      rw
          (
            sent,
            e,
            ← append_assoc acc b _,
            ← update-append init acc b,
            crc16_decode_frame (acc ++ b) (c / 256) (c % 256) (omega arith) (omega arith),
            equal c,
          )
          refl,
      (unfold update in refl, refl, tt),
    )
  where
    equal : (c : ℕ) → (c == c / 256 * 256 + c % 256) ≡ true
    equal c = ground arith

abbrev pub crc16-Piecewise : Piecewise crc16_layer
crc16-Piecewise = record {
  Accepts = IsByte;
  Emits = IsByte;
  Sync = λ s r acc pend. Crc16Sync s acc pend;
  part = encode-IsPart;
  emits = λ s r. encode-IsByte s;
  more = λ s r. crc16_more s;
  final = λ s r. crc16_final s;
}

-- Whatever messages of bytes are encoded, in whatever parts, the peer finds every checksum right
-- and gets exactly those messages.
crc16_deliver-encode_all :
    (cs : List Chunk)
    → AllBytes IsByte cs
    → (deliver crc16_layer tt [] (encode_all crc16_layer init cs).1).2 ≡ frames [] cs
crc16_deliver-encode_all cs ok =
    (carries_all (piecewise-Carries crc16-Piecewise) cs init tt [] []
      (unfold update in refl, refl, tt) ok).0

-- A message that keeps to the layer's MTU makes a frame that keeps to the MTU of the layer below,
-- if that has room for a byte and its checksum and is not 257.
crc16_encode_fits :
    (crc lower : ℕ) (m : Bytes)
    → 3 ≤ lower
    → lower ≢ 257
    → length m ≤ mtu lower
    → length (written (encode crc m true).1) ≤ lower
unfolding encode mtu
crc16_encode_fits crc lower m three ne fits =
    ground (arith, length-append m (update crc m / 256 ∷ update crc m % 256 ∷ []))

-- At 257 the layer offers 256 bytes, one more than it can carry: a message that makes full use of
-- the MTU makes a frame that is one byte longer than the layer below takes.
pub crc16_encode_overruns :
    (crc : ℕ) (m : Bytes) → length m ≡ mtu 257 → length (written (encode crc m true).1) ≡ 257 + 1
unfolding encode mtu
crc16_encode_overruns crc m full =
    ground (arith, length-append m (update crc m / 256 ∷ update crc m % 256 ∷ []))
