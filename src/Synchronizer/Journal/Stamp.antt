-- ===== src/Synchronizer/Journal/Stamp.antt =====
-- What the vector of StoreJournal (src/synchronizer.cpp) means: a map from keys to the sequence
-- number and the length of the last change.
use libstored.Prelude.{
  ℕ, ◌≡◌, refl, ap, ◌∙◌, List, [], ◌∷◌, ◌++◌, map, Option, none, some, All, All-split, arith,
}
use libstored.Prelude.{◌==◌, if◌then◌else◌, ◌<◌, ◌≤◌, ltb}
use libstored.Synchronizer.Journal.{ObjectInfo}

abbrev pub keys : List ObjectInfo → List ℕ
keys xs = map (λ (o : ObjectInfo). o.key) xs

abbrev pub IsBelow : ℕ → List ℕ → Type 0
IsBelow k ks = All (λ (x : ℕ). x < k) ks

abbrev pub IsAbove : ℕ → List ℕ → Type 0
IsAbove k ks = All (λ (x : ℕ). k < x) ks

-- Ascending, with no key twice.
abbrev pub IsAscending : List ℕ → Type 0
IsAscending [] = Unit {0}
IsAscending (k ∷ ks) = IsAbove k ks × IsAscending ks

-- The sequence number (in short) and the length that are on record for a key.
unfoldable pub stamp : ℕ → List ObjectInfo → Option (ℕ × ℕ)
stamp k [] = none
stamp k (o ∷ xs) = if o.key == k then some (o.seq, o.len) else stamp k xs

abbrev pub or_else {ℓ} : {A : Type ℓ} → Option A → Option A → Option A
or_else none y = y
or_else (some x) y = some x

pub stamp-append :
    (k : ℕ) (xs ys : List ObjectInfo) → stamp k (xs ++ ys) ≡ or_else (stamp k xs) (stamp k ys)
unfolding stamp
stamp-append k [] ys = refl
stamp-append k (o ∷ xs) ys = ground (arith, stamp-append k xs ys)

pub stamp_below : (k b : ℕ) (xs : List ObjectInfo) → b ≤ k → IsBelow b (keys xs) → stamp k xs ≡ none
unfolding stamp
stamp_below k b [] h below = refl
stamp_below k b (o ∷ xs) h below = ground (arith, stamp_below k b xs)

pub stamp_above : (k b : ℕ) (xs : List ObjectInfo) → k ≤ b → IsAbove b (keys xs) → stamp k xs ≡ none
unfolding stamp
stamp_above k b [] h above = refl
stamp_above k b (o ∷ xs) h above = ground (arith, stamp_above k b xs)

-- An ascending list, cut at an element.
pub record Cut (xs : List ObjectInfo) (k : ℕ) (ys : List ObjectInfo) : Type 0 where
  pub before : IsAscending (keys xs)
  pub below : IsBelow k (keys xs)
  pub above : IsAbove k (keys ys)
  pub behind : IsAscending (keys ys)

pub keys-append : (xs ys : List ObjectInfo) → keys (xs ++ ys) ≡ keys xs ++ keys ys
keys-append [] ys = refl
keys-append (o ∷ xs) ys = ap (λ ks. o.key ∷ ks) (keys-append xs ys)

pub Cut-ascending :
    (before : List ObjectInfo) (o : ObjectInfo) (behind : List ObjectInfo)
    → IsAscending (keys (before ++ (o ∷ behind)))
    → Cut before o.key behind
Cut-ascending [] o behind h = record { before = tt; below = tt; above = h.0; behind = h.1 }
Cut-ascending (x ∷ before) o behind h =
    let c = Cut-ascending before o behind h.1 in
    let (apart, rest) =
      All-split (λ (y : ℕ). x.key < y) (keys before) (o.key ∷ keys behind)
        (rw (← keys-append before (o ∷ behind)) h.0) in
    record {
      before = (apart, c.before);
      below = (rest.0, c.below);
      above = c.above;
      behind = c.behind;
    }

-- Where a key is to be found in a list that is cut at an element.
pub stamp-Cut :
    (k : ℕ) (before : List ObjectInfo) (o : ObjectInfo) (behind : List ObjectInfo)
    → Cut before o.key behind
    → stamp k (before ++ (o ∷ behind)) ≡ (
        if o.key == k
        then some (o.seq, o.len)
        else if ltb k o.key
        then stamp k before
        else stamp k behind)
stamp-Cut k before o behind c =
    stamp-append k before (o ∷ behind)
    ∙ unfold stamp in ground (arith, stamp_below k o.key before, stamp_above k o.key behind)
