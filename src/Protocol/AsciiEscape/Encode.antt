-- ===== src/Protocol/AsciiEscape/Encode.antt =====
-- What AsciiEscapeLayer::encode (src/protocol.cpp) writes, in whatever chunks.
use libstored.Prelude.{
  ℕ, ◌≡◌, ◌≢◌, refl, sym, ◌∙◌, Bool, true, false, not, ◌&&◌, ◌||◌, List, [], ◌∷◌, ◌++◌,
}
use libstored.Prelude.{
  ◌==◌, if◌then◌else◌, arith, append_assoc, append-nil, Bool-cases, inl, inr, is_empty,
}
use libstored.Protocol.{Bytes, Chunk}
use libstored.Protocol.Parts.{IsPart, IsPart-cons, written, written-append}
use libstored.Protocol.AsciiEscape.{need_escape, esc, encode_from, encode}

-- The reference: one character after the other.
unfoldable pub escaped : Bool → Bytes → Bytes
escaped all [] = []
escaped all (c ∷ m) =
    if need_escape all c == 0 then c ∷ escaped all m else esc ∷ need_escape all c ∷ escaped all m

pub escaped-append :
    (all : Bool) (xs ys : Bytes) → escaped all (xs ++ ys) ≡ escaped all xs ++ escaped all ys
unfolding escaped
escaped-append all [] ys = refl
escaped-append all (c ∷ xs) ys = ground (arith, escaped-append all xs ys)

-- The calls of the loop and the chunk that is left make up the escaped text.
written-encode_from :
    (all last : Bool) (chunk m : Bytes)
    → written (encode_from all last chunk m).0 ++ (encode_from all last chunk m).1
      ≡ chunk ++ escaped all m
unfolding encode_from escaped
written-encode_from all last chunk [] = sym (append-nil chunk)
written-encode_from all last [] (c ∷ m) = elim (Bool-cases (need_escape all c == 0)) [
  | inl e ↦ rw e (written-encode_from all last (c ∷ []) m)
  | inr e ↦ rw (e, written-encode_from all last [] m)
]
written-encode_from all last (x ∷ chunk) (c ∷ m) = elim (Bool-cases (need_escape all c == 0)) [
  | inl e ↦ rw e (
      written-encode_from all last (x ∷ chunk ++ (c ∷ [])) m
      ∙ append_assoc (x ∷ chunk) (c ∷ []) (escaped all m))
  | inr e ↦ rw (
    e,
    append_assoc chunk (esc ∷ need_escape all c ∷ written (encode_from all last [] m).0)
        (encode_from all last [] m).1,
    written-encode_from all last [] m,
  )
]

-- What `encode` sends for a text that is not empty.
abbrev closed : Bool → List Chunk × Bytes → List Chunk
closed last r = if not (is_empty r.1) then r.0 ++ ((r.1, last) ∷ []) else r.0

written-closed :
    (last : Bool) (r : List Chunk × Bytes) → written (closed last r) ≡ written r.0 ++ r.1
written-closed last (out, []) = sym (append-nil (written out))
written-closed last (out, x ∷ chunk) = written-append out ((x ∷ chunk, last) ∷ []) ∙ rw append-nil

-- Only the final call carries the flag.
abbrev IsFinal : Bool → List Chunk → Type 0
IsFinal last cs = (cs ≢ []) × IsPart last cs

IsFinal-cons :
    (last : Bool) (b : Bytes) (cs : List Chunk) → IsFinal last cs → IsFinal last ((b, false) ∷ cs)
IsFinal-cons last b cs h = (λ e. cc e, IsPart-cons last b cs h.0 h.1)

closed-cons :
    (last : Bool) (x : Chunk) (out : List Chunk) (chunk : Bytes)
    → closed last (x ∷ out, chunk) ≡ x ∷ closed last (out, chunk)
closed-cons last x out [] = refl
closed-cons last x out (c ∷ chunk) = refl

flag_inner : (last : Bool) → (last && false) ≡ false
flag_inner true = refl
flag_inner false = refl

flag_final : (last : Bool) → (last && true) ≡ last
flag_final true = refl
flag_final false = refl

single-IsFinal : (last : Bool) (b : Bytes) → IsFinal last ((b, last) ∷ [])
single-IsFinal last b = (λ e. cc e, refl)

closed-snoc :
    (last : Bool) (chunk : Bytes) (c : ℕ)
    → closed last ([], chunk ++ (c ∷ [])) ≡ (chunk ++ (c ∷ []), last) ∷ []
closed-snoc last [] c = refl
closed-snoc last (x ∷ chunk) c = refl

-- An escaped character: a pair behind the chunk, and then the rest.
cut-IsFinal :
    (last : Bool) (chunk pair : Bytes) (flag : Bool) (rest : List Chunk × Bytes)
    → IsFinal last ((pair, flag) ∷ closed last rest)
    → IsFinal last (
        closed last (
          (if is_empty chunk
              then (pair, flag) ∷ rest.0
              else (chunk, false) ∷ (pair, flag) ∷ rest.0),
          rest.1,
        ))
cut-IsFinal last [] pair flag rest h = rw (closed-cons last (pair, flag) rest.0 rest.1) h
cut-IsFinal last (x ∷ chunk) pair flag rest h =
    rw
      (
        closed-cons last (x ∷ chunk, false) ((pair, flag) ∷ rest.0) rest.1,
        closed-cons last (pair, flag) rest.0 rest.1,
      )
      (IsFinal-cons last (x ∷ chunk) ((pair, flag) ∷ closed last rest) h)

closed-IsFinal :
    (all last : Bool) (chunk : Bytes) (c : ℕ) (m : Bytes)
    → IsFinal last (closed last (encode_from all last chunk (c ∷ m)))
unfolding encode_from
closed-IsFinal all last chunk c [] = elim (Bool-cases (need_escape all c == 0)) [
  | inl e ↦ rw (e, closed-snoc last chunk c) (single-IsFinal last (chunk ++ (c ∷ [])))
  | inr e ↦
      rw (e, flag_final last)
        (cut-IsFinal last chunk (esc ∷ need_escape all c ∷ []) last ([], [])
          (single-IsFinal last (esc ∷ need_escape all c ∷ [])))
]
closed-IsFinal all last chunk c (d ∷ m) = elim (Bool-cases (need_escape all c == 0)) [
  | inl e ↦ rw e (closed-IsFinal all last (chunk ++ (c ∷ [])) d m)
  | inr e ↦
      rw (e, flag_inner last)
        (cut-IsFinal last chunk (esc ∷ need_escape all c ∷ []) false
          (encode_from all last [] (d ∷ m))
          (IsFinal-cons last (esc ∷ need_escape all c ∷ [])
            (closed last (encode_from all last [] (d ∷ m))) (closed-IsFinal all last [] d m)))
]

or_false : (b : Bool) → (b || false) ≡ b
or_false true = refl
or_false false = refl

encode-cons :
    (all : Bool) (c : ℕ) (m : Bytes) (last : Bool)
    → encode all (c ∷ m) last ≡ closed last (encode_from all last [] (c ∷ m))
unfolding encode
encode-cons all c m last = rw (or_false (not (is_empty (encode_from all last [] (c ∷ m)).1)))

-- One `encode` writes the escaped text, as one piece of a frame.
pub encode-IsPart : (all : Bool) (m : Bytes) (last : Bool) → IsPart last (encode all m last)
unfolding encode
encode-IsPart all [] true = unfold encode_from in refl
encode-IsPart all [] false = unfold encode_from in refl
encode-IsPart all (c ∷ m) last = rw (encode-cons all c m last) (closed-IsFinal all last [] c m).1

pub written-encode :
    (all : Bool) (m : Bytes) (last : Bool) → written (encode all m last) ≡ escaped all m
unfolding encode
written-encode all [] true = unfold encode_from escaped in refl
written-encode all [] false = unfold encode_from escaped in refl
written-encode all (c ∷ m) last =
    rw (encode-cons all c m last, written-closed last (encode_from all last [] (c ∷ m)))
      (written-encode_from all last [] (c ∷ m))
