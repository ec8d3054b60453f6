-- ===== src/Directory/Tests.antt =====
-- Runs of find and list (src/directory.cpp) on a small directory.
use libstored.Prelude.{ℕ, ◌≡◌, refl, true, false, [], ◌∷◌, some, arith, get_or}
use libstored.Prelude.{size_max}
use mathlib.Core.List.Memᴰ.{head, tail}
use libstored.Protocol.{Bytes}
use libstored.Directory.{
  Variant, variable, Object, found, not_found, variant_of, find, list, decode_int, read_object,
}
use libstored.Directory.Tree.{Tree, end, object, slash, node, Holds}
use libstored.Directory.Sound.{IsReported, find-Matches}
use libstored.Directory.Listing.{list-names}
use libstored.Directory.Complete.{IsSorted, find-list}

-- The objects `a` and `b/c`, of one byte.
abbrev directory : Bytes
directory = 98 ∷ 8 ∷ 0 ∷ 47 ∷ 99 ∷ 0 ∷ 0 ∷ 184 ∷ 1 ∷ 97 ∷ 0 ∷ 0 ∷ 184 ∷ 0 ∷ []

abbrev byte_at : ℕ → ℕ
byte_at p = get_or directory p 0

abbrev first : Object
first = record { type = 56; offset = 0; size = 1 }

abbrev second : Object
second = record { type = 56; offset = 1; size = 1 }

abbrev tree : Tree
tree = node 98 (node 97 end end (object first)) end (slash (node 99 end end (object second)))

first_held : Holds byte_at 9 (node 97 end end (object first))
unfolding decode_int read_object
first_held = (
  refl,
  (
    omega arith,
    (
      omega arith,
      (
        (λ q. omega (arith, q)),
        (0, (11, (0, (12, (refl, (refl, (refl, (refl, (omega arith, refl))))))))),
      ),
    ),
  ),
)

second_held : Holds byte_at 4 (node 99 end end (object second))
unfolding decode_int read_object
second_held = (
  refl,
  (
    omega arith,
    (
      omega arith,
      (
        (λ q. omega (arith, q)),
        (0, (6, (0, (7, (refl, (refl, (refl, (refl, (omega arith, refl))))))))),
      ),
    ),
  ),
)

tree_held : Holds byte_at 0 tree
unfolding decode_int
tree_held = (
  refl,
  (
    omega arith,
    (
      omega arith,
      (
        (λ q. omega (arith, q)),
        (8, (2, (0, (3, (refl, (refl, (first_held, (refl, (refl, second_held))))))))),
      ),
    ),
  ),
)

tree-IsSorted : IsSorted tree
tree-IsSorted = (
  omega arith,
  (
    (omega arith, tt),
    (
      tt,
      ((omega arith, (tt, (tt, (tt, (tt, tt))))), (tt, (omega arith, (tt, (tt, (tt, (tt, tt))))))),
    ),
  ),
)

listed : list byte_at 11 0 [] ≡ some ((97 ∷ [], first) ∷ (98 ∷ 47 ∷ 99 ∷ [], second) ∷ [])
listed = list-names byte_at tree 11 0 [] tree_held (omega arith)

list-names_example :
    list byte_at 11 0 [] ≡ some ((97 ∷ [], first) ∷ (98 ∷ 47 ∷ 99 ∷ [], second) ∷ [])
unfolding libstored.Directory.unknown
list-names_example = list-names byte_at tree 11 0 [] tree_held (omega arith)

find-list_example : find byte_at false 11 0 (98 ∷ 47 ∷ 99 ∷ []) size_max ≡ found (variant_of second)
find-list_example =
    find-list byte_at false tree 11 0 ((97 ∷ [], first) ∷ (98 ∷ 47 ∷ 99 ∷ [], second) ∷ [])
      (98 ∷ 47 ∷ 99 ∷ []) second size_max tree_held tree-IsSorted (omega arith) listed
      (tail (head refl)) (omega arith)

-- The chars up to the '/' and behind the name do not matter.
skipped : find byte_at true 11 0 (98 ∷ 120 ∷ 47 ∷ 99 ∷ 121 ∷ []) 5 ≡ found (variable 56 1 1)
unfolding find decode_int read_object variant_of
skipped = refl

find-Matches_example :
    IsReported
      ((97 ∷ [], first) ∷ (98 ∷ 47 ∷ 99 ∷ [], second) ∷ [])
      (98 ∷ 120 ∷ 47 ∷ 99 ∷ 121 ∷ [])
      (variable 56 1 1)
find-Matches_example =
    find-Matches byte_at true tree 11 0 ((97 ∷ [], first) ∷ (98 ∷ 47 ∷ 99 ∷ [], second) ∷ [])
      (98 ∷ 120 ∷ 47 ∷ 99 ∷ 121 ∷ []) 5 (variable 56 1 1) tree_held (omega arith) listed
      (omega arith) skipped

-- The name `bx` is cut off by its length behind `x`, and the char behind that is read too.
len_wraps : find byte_at true 11 0 (98 ∷ 120 ∷ 99 ∷ []) 2 ≡ found (variable 56 1 1)
unfolding find variant_of decode_int read_object
len_wraps = refl

not_there : find byte_at true 11 0 (99 ∷ []) 1 ≡ not_found
unfolding find decode_int read_object
not_there = refl
