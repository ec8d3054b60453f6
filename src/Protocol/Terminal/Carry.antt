-- ===== src/Protocol/Terminal/Carry.antt =====
-- TerminalLayer (src/protocol.cpp): the layer carries messages without an escape character.
use libstored.Prelude.{
  ℕ, ◌≡◌, ◌≢◌, refl, ap, ◌∙◌, Bool, true, false, List, [], ◌∷◌, ◌++◌, All, All-append, All-map,
}
use libstored.Prelude.{◌==◌, arith, append_assoc, append-nil, IsByte, ◌≤◌, length, length-append}
use libstored.Protocol.{Bytes, Chunk, frames}
use libstored.Protocol.Layer.{encode_all, deliver}
use libstored.Protocol.Layer.Stacked.{AllBytes, carries_all}
use libstored.Protocol.Parts.{IsPart, written, Piecewise, piecewise-Carries}
use libstored.Protocol.Terminal.{
  State, Decoder, initial, encode, mtu, esc, esc_start, esc_end, terminal_layer,
}
use libstored.Protocol.Terminal.Machine.{
  take_char, take_chars, decode-take_chars, take_chars-append,
}

abbrev pub IsPlain : ℕ → Type 0
IsPlain c = IsByte c × (c ≢ esc)

-- Inside a frame the machine collects what is no escape character.
take_chars_plain :
    (buffer m : Bytes)
    → All IsPlain m
    → take_chars (record { state = State.debug; buffer = buffer }) m
      ≡ (record { state = State.debug; buffer = buffer ++ m }, [])
unfolding take_chars take_char
take_chars_plain buffer [] ok = rw append-nil
take_chars_plain buffer (c ∷ m) ok =
    let plain : (c == esc) ≡ false = ground arith in
    rw (plain, take_chars_plain (buffer ++ (c ∷ [])) m ok.1, append_assoc)

take_chars_start :
    take_chars initial (esc ∷ esc_start ∷ []) ≡ (record { state = State.debug; buffer = [] }, [])
unfolding take_chars take_char
take_chars_start = refl

take_chars_end :
    (m : Bytes)
    → take_chars (record { state = State.debug; buffer = m }) (esc ∷ esc_end ∷ [])
      ≡ (initial, m ∷ [])
unfolding take_chars take_char
take_chars_end m = refl

-- A frame from outside, with its message.
pub terminal_decode_frame :
    (m : Bytes)
    → All IsPlain m
    → terminal_layer.decode initial (esc ∷ esc_start ∷ m ++ (esc ∷ esc_end ∷ []))
      ≡ (initial, m ∷ [])
terminal_decode_frame m ok =
    decode-take_chars initial (esc ∷ esc_start ∷ m ++ (esc ∷ esc_end ∷ []))
    ∙ take_chars-append initial (esc ∷ esc_start ∷ []) (m ++ (esc ∷ esc_end ∷ []))
    ∙ rw
        (
          take_chars_start,
          take_chars-append (record { state = State.debug; buffer = [] }) m (esc ∷ esc_end ∷ []),
          take_chars_plain [] m ok,
          take_chars_end m,
        )
        refl

-- What of a frame is on its way while `acc` is encoded of its message.
abbrev pub TerminalSync : Bool → Decoder → Bytes → Bytes → Type 0
TerminalSync true d acc pend = (d ≡ initial) × All IsPlain acc × (pend ≡ esc ∷ esc_start ∷ acc)
TerminalSync false d acc pend = (d ≡ initial) × (acc ≡ []) × (pend ≡ [])

pub encode-IsPart : (s : Bool) (b : Bytes) (last : Bool) → IsPart last (encode s b last).1
unfolding encode
encode-IsPart true b true = (refl, refl)
encode-IsPart true b false = refl
encode-IsPart false b true = (refl, (refl, refl))
encode-IsPart false b false = (refl, refl)

pub encode-IsByte :
    (s : Bool) (b : Bytes) (last : Bool) → All IsPlain b → All IsByte (written (encode s b last).1)
unfolding encode
encode-IsByte true b true ok =
    All-append IsByte b (esc ∷ esc_end ∷ []) (All-map (λ x h. h.0) b ok) (omega arith)
encode-IsByte true b false ok = rw append-nil (All-map (λ x h. h.0) b ok)
encode-IsByte false b true ok = (
  omega arith,
  (omega arith, All-append IsByte b (esc ∷ esc_end ∷ []) (All-map (λ x h. h.0) b ok) (omega arith)),
)
encode-IsByte false b false ok =
    (omega arith, (omega arith, rw append-nil (All-map (λ x h. h.0) b ok)))

pub terminal_more :
    (s : Bool) (d : Decoder) (acc pend b : Bytes)
    → TerminalSync s d acc pend
    → All IsPlain b
    → TerminalSync (encode s b false).0 d (acc ++ b) (pend ++ written (encode s b false).1)
unfolding encode
terminal_more true d acc pend b (e, ok, sent) okb =
    (e, All-append IsPlain acc b ok okb, rw (sent, append-nil) refl)
terminal_more false d acc pend b (e, none_yet, sent) okb =
    (e, rw none_yet okb, rw (sent, none_yet, append-nil) refl)

-- The last part ends the frame, and starts it where it is also the first.
last_part : (s : Bool) (b : Bytes) → encode s b true ≡ (false, (encode s b true).1)
unfolding encode
last_part true b = refl
last_part false b = refl

pub written_whole :
    (b : Bytes) → written (encode false b true).1 ≡ esc ∷ esc_start ∷ b ++ (esc ∷ esc_end ∷ [])
unfolding encode
written_whole b = refl

written_end : (b : Bytes) → written (encode true b true).1 ≡ b ++ (esc ∷ esc_end ∷ [])
unfolding encode
written_end b = refl

pub terminal_final :
    (s : Bool) (d : Decoder) (acc pend b : Bytes)
    → TerminalSync s d acc pend
    → All IsPlain b
    → let (d', up) = terminal_layer.decode d (pend ++ written (encode s b true).1) in
      (up ≡ (acc ++ b) ∷ []) × TerminalSync (encode s b true).0 d' [] []
terminal_final true d acc pend b (e, ok, sent) okb =
    let frame = terminal_decode_frame (acc ++ b) (All-append IsPlain acc b ok okb) in
    rw (last_part true b, written_end b, e, sent, ← append_assoc acc b (esc ∷ esc_end ∷ []))
      (
        ap (λ (p : Decoder × List Bytes). p.1) frame,
        (ap (λ (p : Decoder × List Bytes). p.0) frame, refl, refl),
      )
terminal_final false d acc pend b (e, none_yet, sent) okb =
    let frame = terminal_decode_frame b okb in
    rw (last_part false b, written_whole b, e, sent, none_yet)
      (
        ap (λ (p : Decoder × List Bytes). p.1) frame,
        (ap (λ (p : Decoder × List Bytes). p.0) frame, refl, refl),
      )

abbrev pub terminal-Piecewise : Piecewise terminal_layer
terminal-Piecewise = record {
  Accepts = IsPlain;
  Emits = IsByte;
  Sync = TerminalSync;
  part = encode-IsPart;
  emits = λ s r acc pend b last sync. encode-IsByte s b last;
  more = terminal_more;
  final = terminal_final;
}

-- Messages of bytes that hold no escape character reach the peer, whatever parts they are encoded
-- in.
terminal_deliver-encode_all :
    (cs : List Chunk)
    → AllBytes IsPlain cs
    → (deliver terminal_layer initial [] (encode_all terminal_layer false cs).1).2 ≡ frames [] cs
terminal_deliver-encode_all cs ok =
    (carries_all (piecewise-Carries terminal-Piecewise) cs false initial [] [] (refl, refl, refl)
      ok).0

-- A message that keeps to the layer's MTU makes a frame that keeps to the MTU of the layer below,
-- if that has room for the sequences and one character.
terminal_encode_fits :
    (lower : ℕ) (m : Bytes)
    → 5 ≤ lower
    → length m ≤ mtu lower
    → length (written (encode false m true).1) ≤ lower
unfolding mtu
terminal_encode_fits lower m five fits =
    rw (written_whole m) (ground (arith, length-append m (esc ∷ esc_end ∷ [])))
