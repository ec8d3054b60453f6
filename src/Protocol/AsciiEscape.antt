-- ===== src/Protocol/AsciiEscape.antt =====
-- AsciiEscapeLayer (src/protocol.cpp): control characters travel as an escape character and a
-- printable one.
pub mod Bytewise
pub mod Encode
pub mod RoundTrip
use libstored.Prelude.{ℕ, Bool, true, false, not, ◌&&◌, ◌||◌, Option, none, some, List, [], ◌∷◌}
use libstored.Prelude.{◌++◌, ◌==◌, if◌then◌else◌, bit_and, bit_or, ◌/◌, is_empty}
use libstored.Protocol.{Bytes, Chunk}
use libstored.Protocol.Layer.{Layer}

abbrev pub esc : ℕ
esc = 0x7f

abbrev pub esc_mask : ℕ
esc_mask = 0x1f

abbrev pub cr : ℕ
cr = 0x0d

-- The characters that conflict with other protocols: NUL, XON, XOFF, ESC and CR.
unfoldable pub conflicts : ℕ → Bool
conflicts c = c == 0 || c == 0x11 || c == 0x13 || c == 0x1b || c == cr

-- The character that stands for `c` behind the escape character, or 0 when `c` goes as it is.
-- `0xe0` is `~EscMask` in eight bits.
unfoldable pub need_escape : Bool → ℕ → ℕ
need_escape all c =
    if bit_and c 0xe0 == 0
    then (if not all && not (conflicts c) then 0 else bit_or c 0x40)
    else if c == esc
    then c
    else 0

-- The loop of `encode`: `chunk` is `p[chunk..i)` and the last argument `p[i..len)`. It returns the
-- calls of the layer below, and what of the chunk is left.
unfoldable pub encode_from : Bool → Bool → Bytes → Bytes → List Chunk × Bytes
encode_from all last chunk [] = ([], chunk)
encode_from all last chunk (c ∷ rest) =
    let escaped = need_escape all c in
    let plain = encode_from all last (chunk ++ (c ∷ [])) rest in
    let cut = encode_from all last [] rest in
    let pair = (esc ∷ escaped ∷ [], last && is_empty rest) ∷ cut.0 in
    if escaped == 0
    then plain
    else ((if is_empty chunk then pair else (chunk, false) ∷ pair), cut.1)

unfoldable pub encode : Bool → Bytes → Bool → List Chunk
encode all buffer last =
    let (out, chunk) = encode_from all last [] buffer in
    if not (is_empty chunk) || (is_empty buffer && last) then out ++ ((chunk, last) ∷ []) else out

-- The first loop of `decode`: the buffer cut before the first character that is to be processed.
-- The last character is never taken for one.
unfoldable pub first_escape : Bytes → Option (Bytes × Bytes)
first_escape [] = none
first_escape (c ∷ []) = none
first_escape (c ∷ d ∷ rest) =
    let more = first_escape (d ∷ rest) in
    if c == esc || c == cr
    then some ([], c ∷ d ∷ rest)
    else elim more [ none ↦ none | some (before, found) ↦ some (c ∷ before, found) ]

-- The rest of `decode`, which works in place: the argument is `p[i..len)` and the result what is
-- written from `p[decodeOffset]` on. The offset never passes `i`, so nothing unread is lost.
unfoldable pub unescape : Bytes → Bytes
unescape [] = []
unescape (c ∷ []) = c ∷ []
unescape (c ∷ d ∷ rest) =
    let pair = (if d == esc then esc else bit_and d esc_mask) ∷ unescape rest in
    let dropped = unescape (d ∷ rest) in
    let kept = c ∷ unescape (d ∷ rest) in
    if c == esc then pair else if c == cr then dropped else kept

unfoldable pub decode : Bytes → Bytes
decode buffer = elim (first_escape buffer) [
  | none ↦ buffer
  | some (before, rest) ↦ before ++ unescape rest
]

-- `lower` is the MTU of the layer below; 0 stands for no limit.
unfoldable pub mtu : ℕ → ℕ
mtu lower = if lower == 0 then 0 else if lower == 1 then 1 else lower / 2

-- The layer, for both settings of `all`. It keeps no state.
abbrev pub escape_layer : Bool → Layer
escape_layer all = record {
  Sender = Unit {0};
  Receiver = Unit {0};
  encode = λ s b last. (tt, encode all b last);
  decode = λ r b. (tt, decode b ∷ []);
}
