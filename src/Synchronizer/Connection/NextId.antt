-- ===== src/Synchronizer/Connection/NextId.antt =====
-- nextId of SyncConnection (src/synchronizer.cpp) finds an id.
use libstored.Prelude.{
  ℕ, zero, suc, ◌≡◌, refl, sym, ap, ◌∙◌, ◌≢◌, Bool, true, false, ◌||◌, List, [], ◌∷◌, arith, length,
  Bool-cases, inl, inr,
}
use libstored.Prelude.{◌==◌, if◌then◌else◌, ◌+◌, ◌-◌, ◌/◌, ◌%◌, ◌^◌, ◌<◌, ◌≤◌, ltb}
use libstored.Synchronizer.Map.{Map, contains}
use libstored.Synchronizer.Connection.{
  SyncConnection, Outcome, running, assertion_fails, search_id, next_id, ◌>>=◌,
}

-- What the loop skips.
abbrev taken : Map ℕ → ℕ → Bool
taken m id = id == 0 || contains id m

-- Whether an id is in a list.
abbrev among : ℕ → List ℕ → Bool
among id [] = false
among id (x ∷ xs) = id == x || among id xs

abbrev without : ℕ → List ℕ → List ℕ
without id [] = []
without id (x ∷ xs) = let rest = without id xs in if x == id then rest else x ∷ rest

without-shorter : (id : ℕ) (xs : List ℕ) → length (without id xs) ≤ length xs
without-shorter id [] = omega arith
without-shorter id (x ∷ xs) = ground (arith, without-shorter id xs)

without-among : (id : ℕ) (xs : List ℕ) → among id xs ≡ true → length (without id xs) < length xs
without-among id [] h = absurd (ground arith)
without-among id (x ∷ xs) h = ground (arith, without-among id xs, without-shorter id xs, h)

among-without :
    (i id : ℕ) (xs : List ℕ) → i ≢ id → among i (without id xs) ≡ false → among i xs ≡ false
among-without i id [] n h = refl
among-without i id (x ∷ xs) n h = ground (arith, among-without i id xs n, h, n)

-- Of more ids than a list is long, one is not in the list.
free :
    (n start : ℕ) (xs : List ℕ)
    → length xs < n
    → n ≤ 2 ^ 16
    → (k : ℕ) × ((k < n) × (among ((start + k) % 2 ^ 16) xs ≡ false))
free zero start xs h b = absurd (omega (arith, h))
free (suc n) start xs h b = elim (Bool-cases (among (start % 2 ^ 16) xs)) [
  | inr e ↦ (0, (omega arith, ap (λ s. among (s % 2 ^ 16) xs) (omega arith) ∙ e))
  | inl e ↦
      let (k, (less, out)) =
        free n (start + 1) (without (start % 2 ^ 16) xs)
          (omega (arith, h, without-among (start % 2 ^ 16) xs e)) (omega (arith, b)) in
      (
        suc k,
        (
          omega (arith, less),
          ap (λ s. among (s % 2 ^ 16) xs) (omega arith)
              ∙ among-without ((start + 1 + k) % 2 ^ 16) (start % 2 ^ 16) xs
                  (λ q. omega (arith, q, b, less)) out,
        ),
      )
]

abbrev keys : Map ℕ → List ℕ
keys [] = []
keys (e ∷ m) = e.0 ∷ keys m

length-keys : (m : Map ℕ) → length (keys m) ≡ length m
length-keys [] = refl
length-keys (e ∷ m) = omega (arith, length-keys m)

among-keys : (id : ℕ) (m : Map ℕ) → among id (keys m) ≡ contains id m
among-keys id [] = refl
among-keys id (e ∷ m) = ground (arith, among-keys id m)

-- An id that is not in use.
pub record Fresh (m : Map ℕ) (id : ℕ) : Type 0 where
  pub nonzero : 0 < id
  pub small : id < 2 ^ 16
  pub unused : contains id m ≡ false

search_id_found :
    (fuel id : ℕ) (m : Map ℕ)
    → taken m id ≡ false
    → search_id (suc fuel) m id ≡ running (id, (id + 1) % 2 ^ 16)
unfolding search_id
search_id_found fuel id m h = rw h refl

search_id_skip :
    (fuel id : ℕ) (m : Map ℕ)
    → taken m id ≡ true
    → search_id (suc fuel) m id ≡ search_id fuel m ((id + 1) % 2 ^ 16)
unfolding search_id
search_id_skip fuel id m h = rw h refl

-- The result of the loop, and the id that it is.
abbrev Found : ℕ → Map ℕ → ℕ → Type 0
Found fuel m start =
    (id : ℕ) × ((search_id fuel m start ≡ running (id, (id + 1) % 2 ^ 16)) × Fresh m id)

Fresh-taken : (m : Map ℕ) (id : ℕ) → id < 2 ^ 16 → taken m id ≡ false → Fresh m id
Fresh-taken m id s h = record { nonzero = ground (arith, h); small = s; unused = ground (arith, h) }

-- A connection that has ids left.
abbrev pub HasIds : SyncConnection → Type 0
HasIds c = (length c.id_in < 32767) × (c.id_in_next < 2 ^ 16)

-- The loop ends when an id in reach is free.
Found-free :
    (fuel start k : ℕ) (m : Map ℕ)
    → start < 2 ^ 16
    → k < fuel
    → taken m ((start + k) % 2 ^ 16) ≡ false
    → Found fuel m start
Found-free zero start k m s h out = absurd (omega (arith, h))
Found-free (suc fuel) start k m s h out = elim (Bool-cases (taken m start)) [
  | inr e ↦ (start, (search_id_found fuel start m e, Fresh-taken m start s e))
  | inl e ↦
      let positive : 0 < k =
        elim k as (λ k. taken m ((start + k) % 2 ^ 16) ≡ false → 0 < k) [
          | zero ↦ λ o. absurd (ground (arith, sym e ∙ ap (taken m) (omega (arith, s)) ∙ o))
          | suc k ↦ λ o. omega arith
        ]
          out in
      let (id, (run, fresh)) =
        Found-free fuel ((start + 1) % 2 ^ 16) (k - 1) m (omega arith) (omega (arith, h, positive))
          (ap (taken m) (omega (arith, positive)) ∙ out) in
      (id, (search_id_skip fuel start m e ∙ run, fresh))
]

among-taken : (m : Map ℕ) (id : ℕ) → among id (0 ∷ keys m) ≡ false → taken m id ≡ false
among-taken m id h = ground (arith, h, among-keys id m)

few_enough : (n : ℕ) → n < 32767 → ltb n ((2 ^ 16 - 1) / 2) ≡ true
few_enough n h = ground (arith, h)

guarded :
    (c : SyncConnection) {ok : Bool} {found : Outcome (ℕ × ℕ)} {id next : ℕ}
    → ok ≡ true
    → found ≡ running (id, next)
    → (if ok
        then ◌>>=◌ {B = ℕ × SyncConnection} found
            (λ r. running (r.0, record c { id_in_next = r.1 }))
        else assertion_fails)
      ≡ running (id, record c { id_in_next = next })
guarded c h run = rw (h, run) refl

-- `nextId` returns within its 2^16 rounds when less than 32767 ids are in use, without a failing
-- assertion: the id that it gives is not 0, has 16 bits and is not in use, and the search for the
-- next one starts behind it.
pub next_id-Fresh :
    (c : SyncConnection)
    → HasIds c
    → (id : ℕ) × ((next_id c ≡ running (id, record c { id_in_next = (id + 1) % 2 ^ 16 }))
        × Fresh c.id_in id)
unfolding next_id
next_id-Fresh c (few, next) =
    let (k, (less, out)) =
      free (2 ^ 16) c.id_in_next (0 ∷ keys c.id_in) (omega (arith, few, length-keys c.id_in))
        (omega arith) in
    let (id, (run, fresh)) =
      Found-free (2 ^ 16) c.id_in_next k c.id_in next less
        (among-taken c.id_in ((c.id_in_next + k) % 2 ^ 16) out) in
    (id, (guarded c (few_enough (length c.id_in) few) run, fresh))

too_many : (n : ℕ) → 32767 ≤ n → ltb n ((2 ^ 16 - 1) / 2) ≡ false
too_many n h = ground (arith, h)

refused :
    (c : SyncConnection) {ok : Bool} (found : Outcome (ℕ × ℕ))
    → ok ≡ false
    → (if ok
        then ◌>>=◌ {B = ℕ × SyncConnection} found
            (λ r. running (r.0, record c { id_in_next = r.1 }))
        else assertion_fails)
      ≡ assertion_fails
refused c found h = rw h refl

-- Where 32767 ids are in use, the assertion of `nextId` fails.
pub next_id_full : (c : SyncConnection) → 32767 ≤ length c.id_in → next_id c ≡ assertion_fails
unfolding next_id
next_id_full c many =
    refused c (search_id (2 ^ 16) c.id_in c.id_in_next) (too_many (length c.id_in) many)
