-- ===== src/Directory/Sound.antt =====
-- find (src/directory.cpp) finds nothing but what list reports, under a name that matches.
use libstored.Prelude.{
  ℕ, ◌≡◌, refl, sym, ap, ◌∙◌, Bool, true, false, ◌||◌, ◌&&◌, List, [], ◌∷◌, ◌++◌, Option, none,
  some, arith, length, Bool-cases, inl, inr,
}
use libstored.Prelude.{◌==◌, if◌then◌else◌, ◌-◌, ◌≤◌, leb, ltb, drop}
use mathlib.Core.Path.{subst}
use mathlib.Core.List.{Memᴰ}
use mathlib.Core.List.Memᴰ.{head, tail, append_left, append_right}
use libstored.Protocol.{Bytes}
use libstored.Directory.{
  Object, Variant, Search, found, not_found, unfinished, Comparison, less, equal, greater,
  variant_of, name_ends, compare_char, skip_chars, skip_to_slash, unknown, find, list,
}
use libstored.Directory.Tree.{
  Tree, end, object, skip, slash, node, height, Holds, names, prefix, lookup,
}
use libstored.Directory.Matching.{
  Matches, all_matched, char, Skips, skip_chars-Skips, skip_to_slash-Skips, Equals,
}
use libstored.Directory.Refine.{find-lookup}
use libstored.Directory.Listing.{list-names}
use libstored.Directory.Complete.{listed_of, prefix-nil}

-- One of the objects is what was found, and the name matches its name.
abbrev pub IsReported : List (Bytes × Object) → Bytes → Variant → Type 0
IsReported xs name v = (e : Bytes × Object) × Memᴰ e xs × Matches e.0 name × (v ≡ variant_of e.1)

abbrev Sound : List (Bytes × Object) → Bytes → Search → Type 0
Sound xs name (found v) = IsReported xs name v
Sound xs name not_found = Unit
Sound xs name unfinished = Unit

mem-prefix :
    (more : Bytes) (e : Bytes × Object) (xs : List (Bytes × Object))
    → Memᴰ e xs
    → Memᴰ (more ++ e.0, e.1) (prefix more xs)
mem-prefix more e [] m = elim m [ ]
mem-prefix more e (x ∷ xs) (head q) = head (ap (λ (y : Bytes × Object). (more ++ y.0, y.1)) q)
mem-prefix more e (x ∷ xs) (tail m) = tail (mem-prefix more e xs m)

-- What is found with the rest of a name, behind what `more` matches, is found with the name.
Sound-prefix :
    (more name rest : Bytes) (xs : List (Bytes × Object)) (r : Search)
    → ((pattern : Bytes) → Matches pattern rest → Matches (more ++ pattern) name)
    → Sound xs rest r
    → Sound (prefix more xs) name r
Sound-prefix more name rest xs (found v) h (e, m, matched, same) =
    ((more ++ e.0, e.1), mem-prefix more e xs m, h e.0 matched, same)
Sound-prefix more name rest xs not_found h s = tt
Sound-prefix more name rest xs unfinished h s = tt

Sound-member :
    (xs ys : List (Bytes × Object)) (name : Bytes) (r : Search)
    → ((e : Bytes × Object) → Memᴰ e xs → Memᴰ e ys)
    → Sound xs name r
    → Sound ys name r
Sound-member xs ys name (found v) h (e, m, matched, same) = (e, h e m, matched, same)
Sound-member xs ys name not_found h s = tt
Sound-member xs ys name unfinished h s = tt

module _ (signed : Bool) where
  compare_char-Equals : (name : Bytes) (len c : ℕ) → Equals c name (compare_char signed name len c)
  unfolding compare_char
  compare_char-Equals [] len c = tt
  compare_char-Equals (d ∷ name) len c =
      elim (Bool-cases (len == 0 || (signed && leb 128 d) || ltb d c)) [
        | inl h ↦ rw h tt
        | inr h ↦ rw h (elim (Bool-cases (d == c)) [
          | inl e ↦ rw e (ap (λ x. x ∷ name) (ground (arith, e)))
          | inr e ↦ rw e tt
        ])
      ]

  Sound-resume :
      (t : Tree) (more name : Bytes) (r : Option (Bytes × ℕ)) (ends : Bool)
      → Skips more name r
      → ((rest : Bytes) (len : ℕ)
          → length rest ≤ len
          → Sound (names t) rest (lookup signed t rest len))
      → Sound (prefix more (names t)) name (
          if ends
          then not_found
          else (elim r [ none ↦ not_found | some (rest, len) ↦ lookup signed t rest len ]))
  Sound-resume t more name r true h below = tt
  Sound-resume t more name none false h below = tt
  Sound-resume t more name (some (rest, len)) false (enough, h) below =
      Sound-prefix more name rest (names t) (lookup signed t rest len) h (below rest len enough)

  Sound-node :
      (c : ℕ) (l g e : Tree) (name : Bytes) (len : ℕ) (way : Comparison)
      → Equals c name way
      → Sound (names l) name (lookup signed l name len)
      → Sound (names g) name (lookup signed g name len)
      → Sound (names e) (drop 1 name) (lookup signed e (drop 1 name) (len - 1))
      → Sound (names (node c l g e)) name (elim way [
        | equal ↦ lookup signed e (drop 1 name) (len - 1)
        | less ↦ lookup signed l name len
        | greater ↦ lookup signed g name len
      ])
  Sound-node c l g e name len less same hl hg he =
      Sound-member (names l) _ name (lookup signed l name len) (λ x m. append_left _ m) hl
  Sound-node c l g e name len greater same hl hg he =
      Sound-member (names g) _ name (lookup signed g name len)
        (λ x m. append_right (names l) (append_left _ m)) hg
  Sound-node c l g e name len equal same hl hg he =
      Sound-member (prefix (c ∷ []) (names e)) _ name (lookup signed e (drop 1 name) (len - 1))
        (λ x m. append_right (names l) (append_right (names g) m))
        (Sound-prefix (c ∷ []) name (drop 1 name) (names e) _
          (λ q m. subst (Matches (c ∷ q)) (sym same) (char m)) he)

  lookup-Sound :
      (t : Tree) (name : Bytes) (len : ℕ)
      → length name ≤ len
      → Sound (names t) name (lookup signed t name len)
  lookup-Sound end name len enough = tt
  lookup-Sound (object o) name len enough = (([], o), head refl, all_matched, refl)
  lookup-Sound (skip n t) name len enough =
      Sound-resume t (unknown n) name (skip_chars n name len) (name_ends name len)
        (skip_chars-Skips n name len enough) (lookup-Sound t)
  lookup-Sound (slash t) name len enough =
      Sound-resume t (47 ∷ []) name (skip_to_slash name len) (name_ends name len)
        (skip_to_slash-Skips name len enough) (lookup-Sound t)
  lookup-Sound (node c l g e) name len enough =
      Sound-node c l g e name len (compare_char signed name len c) (compare_char-Equals name len c)
        (lookup-Sound l name len enough) (lookup-Sound g name len enough)
        (lookup-Sound e (drop 1 name) (len - 1) (shorter name enough))
    where
      shorter : (name : Bytes) → length name ≤ len → length (drop 1 name) ≤ len - 1
      shorter [] h = omega arith
      shorter (d ∷ name) h = omega (arith, h)

-- What `find` returns is an object that `list` reports without a prefix, and the name that is asked
-- for matches the one that is reported: char by char, with any char but '/' for a '?', any chars up
-- to the next '/' for a '/', and anything behind it. The memory at the pointer has a tree, there are
-- as many rounds as it is high, the length is that of the name or larger, and chars are signed or
-- not.
pub find-Matches :
    (byte : ℕ → ℕ) (signed : Bool) (t : Tree) (fuel p : ℕ) (xs : List (Bytes × Object))
    → (name : Bytes) (len : ℕ) (v : Variant) → Holds byte p t
    → height t ≤ fuel
    → list byte fuel p [] ≡ some xs
    → length name ≤ len
    → find byte signed fuel p name len ≡ found v
    → IsReported xs name v
find-Matches byte signed t fuel p xs name len v h n listed enough e =
    subst (λ ys. IsReported ys name v)
      (sym (prefix-nil (names t))
        ∙ sym (ap listed_of (sym listed ∙ list-names byte t fuel p [] h n)))
      (subst (Sound (names t) name) (sym (find-lookup byte signed t fuel p name len h n) ∙ e)
        (lookup-Sound signed t name len enough))
