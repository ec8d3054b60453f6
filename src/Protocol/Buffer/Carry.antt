-- ===== src/Protocol/Buffer/Carry.antt =====
-- BufferLayer (src/protocol.cpp): however it cuts the calls, the messages stay the same.
use libstored.Prelude.{
  ℕ, zero, suc, ◌≡◌, refl, sym, ap, ◌∙◌, Bool, true, false, ◌||◌, List, [], ◌∷◌, ◌++◌, All,
  All-append, All-split, Bool-cases, inl, inr,
}
use libstored.Prelude.{
  ◌-◌, ◌<◌, ◌≤◌, arith, length, length-append, length-drop, take, drop, take-append-drop,
  append-nil, append_assoc, ◌==◌, ltb,
}
use libstored.Protocol.{Bytes, Chunk, frames}
use libstored.Protocol.Layer.{encode_all, deliver}
use libstored.Protocol.Layer.Stacked.{AllBytes, carries_all}
use libstored.Protocol.Parts.{IsPart, written, written-append, Piecewise, piecewise-Carries}
use libstored.Protocol.Buffer.{forwarded, fill, finish, encode, buffer_layer}

forwarded_lem : (held part : Bytes) → forwarded held part ≡ held ++ part
unfolding forwarded
forwarded_lem [] part = refl
forwarded_lem (b ∷ held) part = refl

-- The loop forwards what does not fit, and leaves what fits.
record Filled (size : ℕ) (all : Bytes) (r : ℕ × Bytes × Bytes × List Chunk) : Type 0 where
  same : written r.3 ++ (r.1 ++ r.2) ≡ all
  space : r.0 ≡ size - length r.1
  fits : length r.2 ≤ r.0
  room : length r.1 < size

forwarded-same :
    (held buffer w z : Bytes) (n : ℕ)
    → w ++ z ≡ drop n buffer
    → (forwarded held (take n buffer) ++ w) ++ z ≡ held ++ buffer
forwarded-same held buffer w z n e =
    ap (λ f. (f ++ w) ++ z) (forwarded_lem held (take n buffer))
    ∙ append_assoc (held ++ take n buffer) w z
    ∙ ap (λ t. (held ++ take n buffer) ++ t) e
    ∙ append_assoc held (take n buffer) (drop n buffer)
    ∙ ap (λ t. held ++ t) (take-append-drop n buffer)

fill-Filled :
    (fuel size remaining : ℕ) (held buffer : Bytes)
    → remaining ≡ size - length held
    → length held < size
    → length buffer ≤ fuel
    → Filled size (held ++ buffer) (fill fuel size remaining held buffer)
unfolding fill
fill-Filled zero size remaining held buffer e room enough = record {
  same = refl;
  space = e;
  fits = omega (arith, enough);
  room = room;
}
fill-Filled (suc fuel) size remaining held buffer e room enough =
    elim (Bool-cases (ltb remaining (length buffer))) [
      | inl h ↦
          let rest = drop remaining buffer in
          let more =
            fill-Filled fuel size size [] rest (omega arith) (omega (arith, room)) shorter in
          let (r, held', left, out) = fill fuel size size [] rest in
          rw h record {
            same = forwarded-same held buffer (written out) (held' ++ left) remaining more.same;
            space = more.space;
            fits = more.fits;
            room = more.room;
          }
      | inr h ↦ rw h record { same = refl; space = e; fits = ground arith; room = room }
    ]
  where
    shorter : length (drop remaining buffer) ≤ fuel
    shorter = omega (arith, e, room, enough, length-drop remaining buffer)

abbrev AllOpen : List Chunk → Type 0
AllOpen cs = All (λ (c : Chunk). c.1 ≡ false) cs

fill-AllOpen :
    (fuel size remaining : ℕ) (held buffer : Bytes)
    → AllOpen (fill fuel size remaining held buffer).3
unfolding fill
fill-AllOpen zero size remaining held buffer = tt
fill-AllOpen (suc fuel) size remaining held buffer =
    elim (Bool-cases (ltb remaining (length buffer))) [
      | inl h ↦ rw h (refl, fill-AllOpen fuel size size [] (drop remaining buffer))
      | inr h ↦ rw h tt
    ]

open-IsPart : (cs : List Chunk) → AllOpen cs → IsPart false cs
open-IsPart [] h = refl
open-IsPart ((b, l) ∷ []) h = h.0
open-IsPart ((b, l) ∷ c ∷ cs) h = (h.0, open-IsPart (c ∷ cs) h.1)

closed-IsPart :
    (cs : List Chunk) (b : Bytes) (last : Bool) → AllOpen cs → IsPart last (cs ++ ((b, last) ∷ []))
closed-IsPart [] b last h = refl
closed-IsPart ((c, l) ∷ []) b last h = (h.0, refl)
closed-IsPart ((c, l) ∷ d ∷ cs) b last h = (h.0, closed-IsPart (d ∷ cs) b last h.1)

encode-IsPart : (size : ℕ) (held b : Bytes) (last : Bool) → IsPart last (encode size held b last).1
unfolding encode finish
encode-IsPart size held b true =
    let (remaining, held', rest, out) = fill (length b) size (size - length held) held b in
    closed-IsPart out (forwarded held' rest) true
      (fill-AllOpen (length b) size (size - length held) held b)
encode-IsPart size held b false =
    let (remaining, held', rest, out) = fill (length b) size (size - length held) held b in
    let opened = fill-AllOpen (length b) size (size - length held) held b in
    elim (Bool-cases (length rest == remaining)) [
      | inl h ↦ rw h (closed-IsPart out (forwarded held' rest) false opened)
      | inr h ↦ rw (h, append-nil out) (open-IsPart out opened)
    ]

-- What was written and what is held is what was held and the new part.
record Encoded (size : ℕ) (all : Bytes) (r : Bytes × List Chunk) : Type 0 where
  same : written r.1 ++ r.0 ≡ all
  room : length r.0 < size

finish-Encoded :
    (size remaining : ℕ) (held rest : Bytes) (last : Bool)
    → remaining ≡ size - length held
    → length rest ≤ remaining
    → length held < size
    → Encoded size (held ++ rest) (finish remaining held rest last)
unfolding finish
finish-Encoded size remaining held rest last e fits room =
    elim (Bool-cases (last || length rest == remaining)) [
      | inl h ↦ rw h record {
        same =
            append-nil (written ((forwarded held rest, last) ∷ []))
            ∙ append-nil (forwarded held rest)
            ∙ forwarded_lem held rest;
        room = omega arith;
      }
      | inr h ↦ rw h record { same = refl; room = ground (arith, length-append held rest) }
    ]

encode-Encoded :
    (size : ℕ) (held b : Bytes) (last : Bool)
    → length held < size
    → Encoded size (held ++ b) (encode size held b last)
unfolding encode
encode-Encoded size held b last room = record {
  same =
      rw (written-append out (finish remaining held' rest last).1, append_assoc, finished.same)
        filled.same;
  room = finished.room;
}
  where
    filled : Filled size (held ++ b) (fill (length b) size (size - length held) held b)
    filled = fill-Filled (length b) size (size - length held) held b refl room (omega arith)

    remaining : ℕ
    remaining = (fill (length b) size (size - length held) held b).0

    held' : Bytes
    held' = (fill (length b) size (size - length held) held b).1

    rest : Bytes
    rest = (fill (length b) size (size - length held) held b).2

    out : List Chunk
    out = (fill (length b) size (size - length held) held b).3

    finished : Encoded size (held' ++ rest) (finish remaining held' rest last)
    finished = finish-Encoded size remaining held' rest last filled.space filled.fits filled.room

encode_last : (size : ℕ) (held b : Bytes) → (encode size held b true).0 ≡ []
unfolding encode finish
encode_last size held b = refl

module _ (P : ℕ → Type 0) (size : ℕ) (positive : 0 < size) where
  -- What is on its way, and then what is held, is what was encoded of the message.
  abbrev BufferSync : Bytes → Unit {0} → Bytes → Bytes → Type 0
  BufferSync held r acc pend = (pend ++ held ≡ acc) × (length held < size) × All P acc

  bytes :
      (held acc pend b : Bytes) (last : Bool)
      → BufferSync held tt acc pend
      → All P b
      → All P (written (encode size held b last).1)
  bytes held acc pend b last h ok =
      (All-split P (written (encode size held b last).1) (encode size held b last).0 both).0
    where
      both : All P (written (encode size held b last).1 ++ (encode size held b last).0)
      both =
          rw ((encode-Encoded size held b last h.1).same)
            (All-append P held b (All-split P pend held (rw h.0 h.2)).1 ok)

  forward :
      (held acc pend b : Bytes) (last : Bool)
      → BufferSync held tt acc pend
      → (pend ++ written (encode size held b last).1) ++ (encode size held b last).0 ≡ acc ++ b
  forward held acc pend b last h =
      append_assoc pend (written (encode size held b last).1) (encode size held b last).0
      ∙ ap (λ t. pend ++ t) ((encode-Encoded size held b last h.1).same)
      ∙ sym (append_assoc pend held b)
      ∙ ap (λ t. t ++ b) (h.0)

  abbrev buffer-Piecewise : Piecewise (buffer_layer size)
  buffer-Piecewise = record {
    Accepts = P;
    Emits = P;
    Sync = BufferSync;
    part = encode-IsPart size;
    emits = λ s r acc pend b last h ok. bytes s acc pend b last h ok;
    more = λ s r acc pend b h ok. (
      forward s acc pend b false h,
      (encode-Encoded size s b false h.1).room,
      All-append P acc b h.2 ok,
    );
    final = λ s r acc pend b h ok.
        let sent = pend ++ written (encode size s b true).1 in
        let whole : sent ≡ acc ++ b =
          sym (append-nil sent)
          ∙ sym (ap (λ t. sent ++ t) (encode_last size s b))
          ∙ forward s acc pend b true h in
        (
          ap (λ t. t ∷ []) whole,
          (encode_last size s b, (encode-Encoded size s b true h.1).room, tt),
        );
  }

  -- For any limit of the buffer above 0 and calls whose bytes keep to `P`, the calls below it
  -- complete the same frames as the calls of the layer above.
  pub buffer_deliver-encode_all :
      (cs : List Chunk)
      → AllBytes P cs
      → (deliver (buffer_layer size) tt [] (encode_all (buffer_layer size) [] cs).1).2
        ≡ frames [] cs
  buffer_deliver-encode_all cs ok =
      (carries_all (piecewise-Carries buffer-Piecewise) cs [] tt [] [] (refl, positive, tt) ok).0
