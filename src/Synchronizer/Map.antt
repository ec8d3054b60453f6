-- ===== src/Synchronizer/Map.antt =====
-- std::map with numbers for keys (ids, and the addresses of journals), as the connections of
-- synchronizer.h use it: the pairs, in the order of the keys.
pub mod Sorted
use libstored.Prelude.{
  ℕ, ◌≡◌, ap, ◌≢◌, Bool, true, false, List, [], ◌∷◌, Option, none, some, arith, length,
}
use libstored.Prelude.{◌==◌, if◌then◌else◌, ◌+◌, ◌≤◌, ltb}

abbrev pub Map {ℓ} : Type ℓ → Type ℓ
Map V = List (ℕ × V)

module _ {ℓ} {V : Type ℓ} where
  -- `find`
  abbrev pub find : ℕ → Map V → Option V
  find k [] = none
  find k ((j, v) ∷ m) = if k == j then some v else find k m

  abbrev pub contains : ℕ → Map V → Bool
  contains k m = elim (find k m) [ none ↦ false | some _ ↦ true ]

  -- `m[k]`, with the value that a new entry has
  abbrev pub find_or : V → ℕ → Map V → V
  find_or d k m = elim (find k m) [ none ↦ d | some v ↦ v ]

  -- `m[k] = v`
  abbrev pub set : ℕ → V → Map V → Map V
  set k v [] = (k, v) ∷ []
  set k v (e ∷ m) =
      let rest = set k v m in
      if k == e.0 then (k, v) ∷ m else if ltb k e.0 then (k, v) ∷ (e ∷ m) else e ∷ rest

  -- The loops that erase each entry with a property, and `erase` of a key.
  abbrev pub erase_if : (ℕ × V → Bool) → Map V → Map V
  erase_if p [] = []
  erase_if p (e ∷ m) = let rest = erase_if p m in if p e then rest else e ∷ rest

  abbrev pub erase : ℕ → Map V → Map V
  erase k m = erase_if (λ e. e.0 == k) m

  pub find-set_self : (k : ℕ) (v : V) (m : Map V) → find k (set k v m) ≡ some v
  find-set_self k v [] = ground arith
  find-set_self k v (e ∷ m) = ground (arith, find-set_self k v m)

  pub find-set_ne : (j k : ℕ) (v : V) (m : Map V) → j ≢ k → find j (set k v m) ≡ find j m
  find-set_ne j k v [] h = ground arith
  find-set_ne j k v (e ∷ m) h = ground (arith, find-set_ne j k v m h)

  pub find_or-found : (d v : V) (k : ℕ) (m : Map V) → find k m ≡ some v → find_or d k m ≡ v
  find_or-found d v k m h = ap (λ o. elim o [ none ↦ d | some u ↦ u ]) h

  pub contains-found : (v : V) (k : ℕ) (m : Map V) → find k m ≡ some v → contains k m ≡ true
  contains-found v k m h = ap (λ o. elim o [ none ↦ false | some u ↦ true ]) h

  pub length-set : (k : ℕ) (v : V) (m : Map V) → length (set k v m) ≤ length m + 1
  length-set k v [] = omega arith
  length-set k v (e ∷ m) = ground (arith, length-set k v m)
