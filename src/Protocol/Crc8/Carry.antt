-- ===== src/Protocol/Crc8/Carry.antt =====
-- Crc8Layer (src/protocol.cpp): the layer carries messages, within the MTU.
use libstored.Prelude.{ℕ, ◌≡◌, refl, Bool, true, false, List, [], ◌∷◌, ◌++◌, All, All-append}
use libstored.Prelude.{arith, append_assoc, append-nil, IsByte, ◌≤◌, length, length-append, ==_iff}
use libstored.Protocol.{Bytes, Chunk, frames}
use libstored.Protocol.Layer.{encode_all, deliver}
use libstored.Protocol.Layer.Stacked.{AllBytes, carries_all}
use libstored.Protocol.Parts.{IsPart, written, Piecewise, piecewise-Carries}
use libstored.Protocol.Crc8.{init, update, encode, decode, mtu, crc8_layer}
use libstored.Protocol.Crc8.Detect.{crc8_decode_frame, update-append, update-IsByte}

-- `m_crc` is the checksum of what of the message went out.
abbrev pub Crc8Sync : ℕ → Bytes → Bytes → Type 0
Crc8Sync crc acc pend = (crc ≡ update init acc) × (pend ≡ acc) × All IsByte acc

pub encode-IsPart : (crc : ℕ) (b : Bytes) (last : Bool) → IsPart last (encode crc b last).1
unfolding encode
encode-IsPart crc b true = (refl, refl)
encode-IsPart crc b false = refl

pub encode-IsByte :
    (crc : ℕ) (acc pend b : Bytes) (last : Bool)
    → Crc8Sync crc acc pend
    → All IsByte b
    → All IsByte (written (encode crc b last).1)
unfolding encode
encode-IsByte crc acc pend b true (e, sent, bytes) ok =
    All-append IsByte b (update crc b ∷ []) ok (sum_byte, tt)
  where
    sum_byte : IsByte (update crc b)
    sum_byte = update-IsByte b crc ok (rw e (update-IsByte acc init bytes (omega arith)))
encode-IsByte crc acc pend b false sync ok = rw append-nil ok

pub crc8_more :
    (crc : ℕ) (acc pend b : Bytes)
    → Crc8Sync crc acc pend
    → All IsByte b
    → Crc8Sync (encode crc b false).0 (acc ++ b) (pend ++ written (encode crc b false).1)
unfolding encode
crc8_more crc acc pend b (e, sent, bytes) ok = (
  rw (e, update-append init acc b) refl,
  rw (sent, append-nil) refl,
  All-append IsByte acc b bytes ok,
)

pub crc8_final :
    (crc : ℕ) (acc pend b : Bytes)
    → Crc8Sync crc acc pend
    → All IsByte b
    → (decode (pend ++ written (encode crc b true).1) ≡ (acc ++ b) ∷ [])
      × Crc8Sync (encode crc b true).0 [] []
unfolding encode
crc8_final crc acc pend b (e, sent, bytes) ok = (
  rw
      (
        sent,
        e,
        ← append_assoc acc b (update (update init acc) b ∷ []),
        ← update-append init acc b,
        crc8_decode_frame (acc ++ b) (update init (acc ++ b)),
        (==_iff (update init (acc ++ b)) (update init (acc ++ b))).1 refl,
      )
      refl,
  (unfold update in refl, refl, tt),
)

abbrev pub crc8-Piecewise : Piecewise crc8_layer
crc8-Piecewise = record {
  Accepts = IsByte;
  Emits = IsByte;
  Sync = λ s r acc pend. Crc8Sync s acc pend;
  part = encode-IsPart;
  emits = λ s r. encode-IsByte s;
  more = λ s r. crc8_more s;
  final = λ s r. crc8_final s;
}

-- Whatever messages of bytes are encoded, in whatever parts, the peer finds every checksum right
-- and gets exactly those messages.
crc8_deliver-encode_all :
    (cs : List Chunk)
    → AllBytes IsByte cs
    → (deliver crc8_layer tt [] (encode_all crc8_layer init cs).1).2 ≡ frames [] cs
crc8_deliver-encode_all cs ok =
    (carries_all (piecewise-Carries crc8-Piecewise) cs init tt [] []
      (unfold update in refl, refl, tt) ok).0

-- A message that keeps to the layer's MTU makes a frame that keeps to the MTU of the layer below,
-- if that has room for a byte and its checksum.
crc8_encode_fits :
    (crc lower : ℕ) (m : Bytes)
    → 2 ≤ lower
    → length m ≤ mtu lower
    → length (written (encode crc m true).1) ≤ lower
unfolding encode mtu
crc8_encode_fits crc lower m two fits = ground (arith, length-append m (update crc m ∷ []))
