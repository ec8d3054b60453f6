-- ===== src/Protocol/AsciiEscape/RoundTrip.antt =====
-- AsciiEscapeLayer (src/protocol.cpp): what one end escapes, the other restores.
use libstored.Prelude.{ℕ, ◌≡◌, ◌≢◌, refl, sym, ◌∙◌, Bool, true, false, List, [], ◌∷◌, ◌++◌, All}
use libstored.Prelude.{◌==◌, ==_iff, arith, Bool-cases, inl, inr, IsByte, ◌<◌, ◌≤◌, ◌*◌}
use libstored.Prelude.{length, All-append}
use libstored.Protocol.{Bytes, Chunk, frames}
use libstored.Protocol.Layer.{encode_all, deliver}
use libstored.Protocol.Layer.Stacked.{AllBytes, carries_all}
use libstored.Protocol.Parts.{written, Piecewise, piecewise-Carries}
use libstored.Protocol.AsciiEscape.{
  esc, cr, need_escape, encode, first_escape, unescape, decode, mtu, escape_layer,
}
use libstored.Protocol.AsciiEscape.Bytewise.{restored, plain_clean, escaped_restored}
use libstored.Protocol.AsciiEscape.Encode.{escaped, escaped-append, encode-IsPart, written-encode}

-- The two loops of `decode` together are the second one.
decode-unescape : (m : Bytes) → decode m ≡ unescape m
unfolding decode first_escape unescape
decode-unescape [] = refl
decode-unescape (c ∷ []) = refl
decode-unescape (c ∷ d ∷ m) = ground (arith, decode-unescape (d ∷ m))

unescape_plain : (c : ℕ) (m : Bytes) → c ≢ esc → c ≢ cr → unescape (c ∷ m) ≡ c ∷ unescape m
unfolding unescape
unescape_plain c [] p q = refl
unescape_plain c (d ∷ m) p q = ground arith

unescape_pair : (d : ℕ) (m : Bytes) → unescape (esc ∷ d ∷ m) ≡ restored d ∷ unescape m
unfolding unescape
unescape_pair d m = refl

unescape-escaped : (all : Bool) (m : Bytes) → All IsByte m → unescape (escaped all m) ≡ m
unfolding escaped
unescape-escaped all [] h = unfold unescape in refl
unescape-escaped all (c ∷ m) h = elim (Bool-cases (need_escape all c == 0)) [
  | inl e ↦
      let clean = plain_clean all c h.0 ((==_iff _ _).0 e) in
      rw (e, unescape_plain c (escaped all m) clean.0 clean.5, unescape-escaped all m h.1)
  | inr e ↦ rw (
    e,
    unescape_pair (need_escape all c) (escaped all m),
    (escaped_restored all c h.0 (λ z. cc ((==_iff _ _).1 z))).0,
    unescape-escaped all m h.1,
  )
]

-- What the layer sends: neither of the control characters that other protocols use.
abbrev pub IsClean : ℕ → Type 0
IsClean x = (x < 256) × (x ≢ 0) × (x ≢ 0x11) × (x ≢ 0x13) × (x ≢ 0x1b) × (x ≢ cr)

escaped-IsClean : (all : Bool) (m : Bytes) → All IsByte m → All IsClean (escaped all m)
unfolding escaped
escaped-IsClean all [] h = tt
escaped-IsClean all (c ∷ m) h = elim (Bool-cases (need_escape all c == 0)) [
  | inl e ↦
      let clean = plain_clean all c h.0 ((==_iff _ _).0 e) in
      rw e ((h.0, clean.1, clean.2, clean.3, clean.4, clean.5), escaped-IsClean all m h.1)
  | inr e ↦
      let (r, lo, hi) = escaped_restored all c h.0 (λ z. cc ((==_iff _ _).1 z)) in
      rw e (omega arith, (omega arith, escaped-IsClean all m h.1))
]

length-escaped : (all : Bool) (m : Bytes) → length (escaped all m) ≤ 2 * length m
unfolding escaped
length-escaped all [] = omega arith
length-escaped all (c ∷ m) = ground (arith, length-escaped all m)

-- A message of bytes that keeps to the layer's MTU makes a frame that keeps to the MTU of the layer
-- below, if that has room for an escaped character at all; and the frame has no character that
-- another protocol uses.
escape_encode_fits :
    (all : Bool) (lower : ℕ) (m : Bytes) (last : Bool)
    → 2 ≤ lower
    → length m ≤ mtu lower
    → All IsByte m
    → (length (written (encode all m last)) ≤ lower) × All IsClean (written (encode all m last))
unfolding mtu
escape_encode_fits all lower m last two fits ok =
    rw (written-encode all m last) (ground (arith, length-escaped all m), escaped-IsClean all m ok)

abbrev pub EscapeSync : Bool → Bytes → Bytes → Type 0
EscapeSync all acc pend = (pend ≡ escaped all acc) × All IsByte acc

decode-escaped : (all : Bool) (m : Bytes) → All IsByte m → decode (escaped all m) ≡ m
decode-escaped all m ok = decode-unescape (escaped all m) ∙ unescape-escaped all m ok

pub escape_final :
    (all : Bool) (acc pend b : Bytes)
    → EscapeSync all acc pend
    → All IsByte b
    → (decode (pend ++ written (encode all b true)) ∷ [] ≡ (acc ++ b) ∷ []) × EscapeSync all [] []
escape_final all acc pend b sync ok =
    rw
      (
        written-encode all b true,
        sync.0,
        ← escaped-append all acc b,
        decode-escaped all (acc ++ b) (All-append IsByte acc b sync.1 ok),
      )
      (refl, (unfold escaped in refl, tt))

pub escape_more :
    (all : Bool) (acc pend b : Bytes)
    → EscapeSync all acc pend
    → All IsByte b
    → EscapeSync all (acc ++ b) (pend ++ written (encode all b false))
escape_more all acc pend b sync ok = (
  rw (written-encode all b false, sync.0) (sym (escaped-append all acc b)),
  All-append IsByte acc b sync.1 ok,
)

pub escape-IsClean :
    (all : Bool) (b : Bytes) (last : Bool)
    → All IsByte b
    → All IsClean (written (encode all b last))
escape-IsClean all b last ok = rw (written-encode all b last) (escaped-IsClean all b ok)

abbrev pub escape-Piecewise : (all : Bool) → Piecewise (escape_layer all)
escape-Piecewise all = record {
  Accepts = IsByte;
  Emits = IsClean;
  Sync = λ s r acc pend. EscapeSync all acc pend;
  part = λ s. encode-IsPart all;
  emits = λ s r acc pend b last sync. escape-IsClean all b last;
  more = λ s r. escape_more all;
  final = λ s r. escape_final all;
}

-- Whatever messages of bytes are encoded, in whatever parts, the peer gets exactly those messages,
-- in order and byte for byte, for both settings of `all`.
pub escape_deliver-encode_all :
    (all : Bool) (cs : List Chunk)
    → AllBytes IsByte cs
    → (deliver (escape_layer all) tt [] (encode_all (escape_layer all) tt cs).1).2 ≡ frames [] cs
escape_deliver-encode_all all cs ok =
    (carries_all (piecewise-Carries (escape-Piecewise all)) cs tt tt [] []
      (unfold escaped in refl, tt) ok).0
