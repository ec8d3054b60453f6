-- ===== src/Protocol/Chain.antt =====
-- ProtocolLayer (include/libstored/protocol.h): the pointers that chain the layers of a stack. A
-- layer is a number, and a store has its two pointers.
use libstored.Prelude.{ℕ, ◌≡◌, ◌≢◌, ◌==◌, if◌then◌else◌, Option, none, some, arith}

record Pointers : Type 0 where
  up : Option ℕ
  down : Option ℕ

abbrev Store : Type 0
Store = ℕ → Pointers

-- `setUp` and `setDown`.
unfoldable set_up : Store → ℕ → Option ℕ → Store
set_up g this u x = if x == this then record (g x) { up = u } else g x

unfoldable set_down : Store → ℕ → Option ℕ → Store
set_down g this d x = if x == this then record (g x) { down = d } else g x

-- The inner lines of `wrap` and `stack`, for a neighbour that may be null.
unfoldable take_down : Store → ℕ → Option ℕ → Store
unfolding set_up set_down
take_down g this none = set_down g this none
take_down g this (some d) = set_up (set_down g this (some d)) d (some this)

unfoldable take_up : Store → ℕ → Option ℕ → Store
unfolding set_up set_down
take_up g this none = set_up g this none
take_up g this (some u) = set_down (set_up g this (some u)) u (some this)

-- `wrap`: the layer goes below `above`, unless it has a layer below it already.
unfoldable wrap : Store → ℕ → ℕ → Store
unfolding take_down set_up set_down
wrap g this above =
    let g1 : Store = elim (g this).down [ none ↦ take_down g this (g above).down | some d ↦ g ] in
    set_up (set_down g1 above (some this)) this (some above)

-- `stack`: the layer goes above `below`.
unfoldable stack : Store → ℕ → ℕ → Store
unfolding take_up set_up set_down
stack g this below =
    set_down (set_up (take_up g this (g below).up) below (some this)) this (some below)

-- A layer of its own, to be put between two neighbours.
record Between (g : Store) (this above below : ℕ) : Type 0 where
  free_up : (g this).up ≡ none
  free_down : (g this).down ≡ none
  above_down : (g above).down ≡ some below
  below_up : (g below).up ≡ some above
  not_above : this ≢ above
  not_below : this ≢ below
  other : above ≢ below

-- For a layer of its own and two neighbours, all three different, to wrap the layer above and to
-- stack on the one below it come to the same, for every layer.
wrap-stack :
    (g : Store) (this above below x : ℕ)
    → Between g this above below
    → wrap g this above x ≡ stack g this below x
unfolding wrap stack take_up take_down set_up set_down
wrap-stack g this above below x h = rw (h.free_down, h.above_down, h.below_up) (ground (arith, h))

-- A layer that is put between two neighbours points to both and both to it; their other pointers
-- stay.
wrap-Between :
    (g : Store) (this above below : ℕ)
    → Between g this above below
    → let g' = wrap g this above in
      (g' this ≡ record { up = some above; down = some below })
      × (g' above ≡ record { up = (g above).up; down = some this })
      × (g' below ≡ record { up = some this; down = (g below).down })
unfolding wrap take_down set_up set_down
wrap-Between g this above below h = rw (h.free_down, h.above_down) (ground (arith, h))
