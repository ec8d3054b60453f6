-- ===== src/Directory/Tree.antt =====
-- What a directory (src/directory.cpp) describes, as a tree of chars: what `find` and `list` make of
-- it without pointers, and when the memory at a pointer has it.
use libstored.Prelude.{ℕ, suc, ◌≡◌, ◌≢◌, Bool, List, [], ◌∷◌, ◌++◌, none, some}
use libstored.Prelude.{if◌then◌else◌, ◌+◌, ◌-◌, ◌<◌, ◌≤◌, drop}
use libstored.Protocol.{Bytes}
use libstored.Directory.{
  Object, Search, found, not_found, less, equal, greater, variant_of, name_ends, compare_char,
  skip_chars, skip_to_slash, unknown, decode_int, read_object,
}

pub data Tree : Type 0 where
  end : Tree
  object : Object → Tree
  skip : ℕ → Tree → Tree
  slash : Tree → Tree
  node : ℕ → Tree → Tree → Tree → Tree

abbrev pub height : Tree → ℕ
height end = 1
height (object o) = 1
height (skip n t) = suc (height t)
height (slash t) = suc (height t)
height (node c l g e) = suc (height l + height g + height e)

-- The memory at `p` has the tree.
abbrev pub Holds : (ℕ → ℕ) → ℕ → Tree → Type 0
Holds byte p end = byte p ≡ 0
Holds byte p (object o) = (128 ≤ byte p) × (read_object byte p ≡ some o)
Holds byte p (skip n t) = (byte p ≡ n) × ((0 < n) × ((n < 32) × Holds byte (p + 1) t))
Holds byte p (slash t) = (byte p ≡ 47) × Holds byte (p + 1) t
Holds byte p (node c l g e) =
    (byte p ≡ c)
    × ((31 < c)
        × ((c < 128)
            × ((c ≢ 47)
                × ((v : ℕ) × ((p1 : ℕ) × ((w : ℕ) × ((p2 : ℕ) × ((decode_int byte (p + 1)
                              ≡ some (v, p1))
                            × ((decode_int byte p1 ≡ some (w, p2))
                                × (Holds byte (p1 + v - 1) l
                                    × (Holds byte (p2 + w - 1) g × Holds byte p2 e)))))))))))

-- Something in front of all names.
abbrev pub prefix : Bytes → List (Bytes × Object) → List (Bytes × Object)
prefix more [] = []
prefix more ((name, o) ∷ rest) = (more ++ name, o) ∷ prefix more rest

-- The names of the objects, in the order of `list`.
abbrev pub names : Tree → List (Bytes × Object)
names end = []
names (object o) = ([], o) ∷ []
names (skip n t) = prefix (unknown n) (names t)
names (slash t) = prefix (47 ∷ []) (names t)
names (node c l g e) = names l ++ (names g ++ prefix (c ∷ []) (names e))

module _ (signed : Bool) where
  -- `find`, on the tree.
  abbrev pub lookup : Tree → Bytes → ℕ → Search
  lookup end name len = not_found
  lookup (object o) name len = found (variant_of o)
  lookup (skip n t) name len =
      if name_ends name len then not_found else (elim (skip_chars n name len) [
        | none ↦ not_found
        | some (name', len') ↦ lookup t name' len'
      ])
  lookup (slash t) name len =
      if name_ends name len then not_found else (elim (skip_to_slash name len) [
        | none ↦ not_found
        | some (name', len') ↦ lookup t name' len'
      ])
  lookup (node c l g e) name len = elim (compare_char signed name len c) [
    | equal ↦ lookup e (drop 1 name) (len - 1)
    | less ↦ lookup l name len
    | greater ↦ lookup g name len
  ]
