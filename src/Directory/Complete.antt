-- ===== src/Directory/Complete.antt =====
-- find (src/directory.cpp) finds every object under the name that list gives it.
use libstored.Prelude.{
  ℕ, zero, suc, ◌≡◌, refl, sym, ap, ◌∙◌, Bool, true, false, ◌&&◌, ◌||◌, List, [], ◌∷◌, ◌++◌, Option,
  none, some, All, All-append, arith, length, length-append,
}
use libstored.Prelude.{◌==◌, if◌then◌else◌, ◌-◌, ◌<◌, ◌≤◌, leb, ltb}
use mathlib.Core.Path.{subst}
use mathlib.Core.List.{Memᴰ}
use mathlib.Core.List.Memᴰ.{head, tail}
use libstored.Protocol.{Bytes}
use libstored.Directory.{
  Object, found, less, equal, greater, variant_of, name_ends, compare_char, skip_chars,
  skip_to_slash, unknown, find, list,
}
use libstored.Directory.Tree.{
  Tree, end, object, skip, slash, node, height, Holds, names, prefix, lookup,
}
use libstored.Directory.Refine.{find-lookup}
use libstored.Directory.Listing.{list-names}

-- A name that is sorted before a char, or behind it.
abbrev Before : ℕ → Bytes × Object → Type 0
Before c ([], o) = Unit
Before c (d ∷ name, o) = d < c

abbrev Behind : ℕ → Bytes × Object → Type 0
Behind c ([], o) = 1 ≤ 0
Behind c (d ∷ name, o) = (c < d) × (d < 128)

-- The names of a node are sorted: those before its char, and those behind it.
abbrev pub IsSorted : Tree → Type 0
IsSorted end = Unit
IsSorted (object o) = Unit
IsSorted (skip n t) = (0 < n) × IsSorted t
IsSorted (slash t) = IsSorted t
IsSorted (node c l g e) =
    (c < 128)
    × (All (Before c) (names l)
        × (All (Behind c) (names g) × (IsSorted l × (IsSorted g × IsSorted e))))

module _ (signed : Bool) where
  -- The name leads to the object.
  abbrev Leads : Tree → Bytes × Object → Type 0
  Leads t (name, o) =
      (len : ℕ) → length name ≤ len → lookup signed t name len ≡ found (variant_of o)

  skip_chars-unknown :
      (n : ℕ) (name : Bytes) (len : ℕ)
      → length (unknown n ++ name) ≤ len
      → skip_chars n (unknown n ++ name) len ≡ some (name, len - n)
  unfolding skip_chars unknown
  skip_chars-unknown zero name len h = ap (λ l. some (name, l)) (omega arith)
  skip_chars-unknown (suc n) name len h =
      let more : (len == 0 || 63 == 47) ≡ false = ground (arith, h) in
      rw (skip_chars, more)
        (skip_chars-unknown n name (len - 1) (omega (arith, h))
          ∙ ap (λ l. some (name, l)) (omega arith))

  length-unknown : (n : ℕ) → length (unknown n) ≡ n
  unfolding unknown
  length-unknown zero = refl
  length-unknown (suc n) = ap suc (length-unknown n)

  starts :
      (n : ℕ) (name : Bytes) (len : ℕ)
      → 0 < n
      → length (unknown n ++ name) ≤ len
      → name_ends (unknown n ++ name) len ≡ false
  unfolding name_ends unknown
  starts zero name len h enough = absurd (omega (arith, h))
  starts (suc n) name len h enough = ground (arith, enough)

  compare-less :
      (d : ℕ) (name : Bytes) (len c : ℕ) → d < c → compare_char signed (d ∷ name) len c ≡ less
  unfolding compare_char
  compare-less d name len c h =
      let t : (len == 0 || (signed && leb 128 d) || ltb d c) ≡ true = ground (arith, h) in
      rw (compare_char, t) refl

  compare-others :
      (d : ℕ) (name : Bytes) (len c : ℕ)
      → 0 < len
      → c ≤ d
      → d < 128
      → compare_char signed (d ∷ name) len c ≡ (if d == c then equal else greater)
  unfolding compare_char
  compare-others d name len c some_len h ascii =
      let t : (len == 0 || (signed && leb 128 d) || ltb d c) ≡ false =
        ground (arith, some_len, h, ascii) in
      rw (compare_char, t) refl

  Leads-skip :
      (n : ℕ) (t : Tree) (e : Bytes × Object)
      → 0 < n
      → Leads t e
      → Leads (skip n t) (unknown n ++ e.0, e.1)
  Leads-skip n t e h lead len enough =
      rw (starts n e.0 len h enough, skip_chars-unknown n e.0 len enough)
        (lead (len - n) (omega (arith, enough, length-append (unknown n) e.0, length-unknown n)))

  Leads-slash : (t : Tree) (e : Bytes × Object) → Leads t e → Leads (slash t) (47 ∷ e.0, e.1)
  unfolding name_ends skip_to_slash
  Leads-slash t e lead len enough =
      let more : (len == 0) ≡ false = ground (arith, enough) in
      rw (name_ends, more, skip_to_slash) (lead (len - 1) (omega (arith, enough)))

  Leads-less :
      (c : ℕ) (l g e : Tree) (x : Bytes × Object)
      → c < 128
      → Before c x
      → Leads l x
      → Leads (node c l g e) x
  unfolding compare_char
  Leads-less c l g e ([], o) ascii h lead len enough = lead len enough
  Leads-less c l g e (d ∷ name, o) ascii h lead len enough =
      rw (lookup, compare-less d name len c h) (lead len enough)

  Leads-greater :
      (c : ℕ) (l g e : Tree) (x : Bytes × Object) → Behind c x → Leads g x → Leads (node c l g e) x
  Leads-greater c l g e ([], o) h lead len enough = absurd (omega (arith, h))
  Leads-greater c l g e (d ∷ name, o) h lead len enough =
      let other : (d == c) ≡ false = ground (arith, h.0) in
      rw
        (
          lookup,
          compare-others d name len c (omega (arith, enough)) (omega (arith, h.0)) h.1,
          other,
        )
        (lead len enough)

  Leads-equal :
      (c : ℕ) (l g e : Tree) (x : Bytes × Object)
      → c < 128
      → Leads e x
      → Leads (node c l g e) (c ∷ x.0, x.1)
  Leads-equal c l g e x ascii lead len enough =
      let same : (c == c) ≡ true = ground arith in
      rw (lookup, compare-others c x.0 len c (omega (arith, enough)) (omega arith) ascii, same)
        (lead (len - 1) (omega (arith, enough)))

  Leads-prefix :
      (P Q : Bytes × Object → Type 0) (more : Bytes)
      → ((x : Bytes × Object) → P x → Q (more ++ x.0, x.1))
      → (xs : List (Bytes × Object)) → All P xs
      → All Q (prefix more xs)
  Leads-prefix P Q more f [] h = tt
  Leads-prefix P Q more f (x ∷ xs) h = (f x h.0, Leads-prefix P Q more f xs h.1)

  All-both :
      (P Q R : Bytes × Object → Type 0)
      → ((x : Bytes × Object) → P x → Q x → R x)
      → (xs : List (Bytes × Object)) → All P xs
      → All Q xs
      → All R xs
  All-both P Q R f [] h k = tt
  All-both P Q R f (x ∷ xs) h k = (f x h.0 k.0, All-both P Q R f xs h.1 k.1)

  Leads-names : (t : Tree) → IsSorted t → All (Leads t) (names t)
  Leads-names end s = tt
  Leads-names (object o) s = (λ len enough. refl, tt)
  Leads-names (skip n t) (h, s) =
      Leads-prefix (Leads t) (Leads (skip n t)) (unknown n) (λ e. Leads-skip n t e h) (names t)
        (Leads-names t s)
  Leads-names (slash t) s =
      Leads-prefix (Leads t) (Leads (slash t)) (47 ∷ []) (Leads-slash t) (names t) (Leads-names t s)
  Leads-names (node c l g e) (ascii, (before, (behind, (sl, (sg, se))))) =
      All-append (Leads (node c l g e)) (names l) (names g ++ prefix (c ∷ []) (names e))
        (All-both (Before c) (Leads l) (Leads (node c l g e)) (λ x. Leads-less c l g e x ascii)
          (names l) before (Leads-names l sl))
        (All-append (Leads (node c l g e)) (names g) (prefix (c ∷ []) (names e))
          (All-both (Behind c) (Leads g) (Leads (node c l g e)) (Leads-greater c l g e) (names g)
            behind (Leads-names g sg))
          (Leads-prefix (Leads e) (Leads (node c l g e)) (c ∷ []) (λ x. Leads-equal c l g e x ascii)
            (names e) (Leads-names e se)))

All-mem :
    (P : Bytes × Object → Type 0) (x : Bytes × Object) (xs : List (Bytes × Object))
    → All P xs
    → Memᴰ x xs
    → P x
All-mem P x [] h m = elim m [ ]
All-mem P x (y ∷ xs) h (head e) = subst P (sym e) h.0
All-mem P x (y ∷ xs) h (tail m) = All-mem P x xs h.1 m

pub prefix-nil : (xs : List (Bytes × Object)) → prefix [] xs ≡ xs
prefix-nil [] = refl
prefix-nil (x ∷ xs) = ap (λ r. x ∷ r) (prefix-nil xs)

abbrev pub listed_of : Option (List (Bytes × Object)) → List (Bytes × Object)
listed_of none = []
listed_of (some xs) = xs

-- An object that `list` reports without a prefix is found by `find` under the name that it reports,
-- if the memory at the pointer has a tree whose nodes have the names before and behind their chars
-- on the right side: with every length from that of the name on, whether chars are signed or not,
-- and as many rounds as the tree is high are enough for both.
pub find-list :
    (byte : ℕ → ℕ) (signed : Bool) (t : Tree) (fuel p : ℕ) (xs : List (Bytes × Object))
    → (name : Bytes) (o : Object) (len : ℕ) → Holds byte p t
    → IsSorted t
    → height t ≤ fuel
    → list byte fuel p [] ≡ some xs
    → Memᴰ (name, o) xs
    → length name ≤ len
    → find byte signed fuel p name len ≡ found (variant_of o)
find-list byte signed t fuel p xs name o len h s n listed m enough =
    find-lookup byte signed t fuel p name len h n
    ∙ All-mem (Leads signed t) (name, o) (names t) (Leads-names signed t s)
        (subst (Memᴰ (name, o))
          (ap listed_of (sym listed ∙ list-names byte t fuel p [] h n) ∙ prefix-nil (names t)) m)
        len enough
