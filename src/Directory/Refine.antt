-- ===== src/Directory/Refine.antt =====
-- find and list (src/directory.cpp) walk over the tree that the memory has.
use libstored.Prelude.{
  ℕ, zero, suc, ◌≡◌, refl, ap, ◌∙◌, Bool, true, false, Option, none, some, arith,
}
use libstored.Prelude.{◌==◌, if◌then◌else◌, ◌+◌, ◌-◌, ◌≤◌, leb, drop}
use libstored.Protocol.{Bytes}
use libstored.Directory.{
  Object, Search, found, not_found, unfinished, Comparison, less, equal, greater, variant_of,
  name_ends, compare_char, skip_chars, skip_to_slash, read_object, decode_int, branch, find,
}
use libstored.Directory.Tree.{Tree, end, object, skip, slash, node, height, Holds, lookup}
use libstored.Directory.Numbers.{branch-less, branch-greater, branch-equal}

module _ (byte : ℕ → ℕ) (signed : Bool) where
  find_end :
      (fuel p : ℕ) (name : Bytes) (len : ℕ)
      → (byte p == 0) ≡ true
      → find byte signed (suc fuel) p name len ≡ not_found
  unfolding find
  find_end fuel p name len h = rw (find, h) refl

  find_object :
      (fuel p : ℕ) (name : Bytes) (len : ℕ) (o : Object)
      → (byte p == 0) ≡ false
      → leb 128 (byte p) ≡ true
      → read_object byte p ≡ some o
      → find byte signed (suc fuel) p name len ≡ found (variant_of o)
  unfolding find
  find_object fuel p name len o h k r = rw (find, h, k, r) refl

  -- What `find` does behind the chars that it skips.
  abbrev resume : ℕ → ℕ → Option (Bytes × ℕ) → Search
  resume fuel p none = not_found
  resume fuel p (some (name, len)) = find byte signed fuel p name len

  find_skip :
      (fuel p : ℕ) (name : Bytes) (len : ℕ)
      → (byte p == 0) ≡ false
      → leb 128 (byte p) ≡ false
      → leb (byte p) 31 ≡ true
      → find byte signed (suc fuel) p name len ≡ (
          if name_ends name len
          then not_found
          else resume fuel (p + 1) (skip_chars (byte p) name len))
  unfolding find
  find_skip fuel p name len h k r = rw (find, h, k, r) refl

  find_slash :
      (fuel p : ℕ) (name : Bytes) (len : ℕ)
      → (byte p == 0) ≡ false
      → leb 128 (byte p) ≡ false
      → leb (byte p) 31 ≡ false
      → (byte p == 47) ≡ true
      → find byte signed (suc fuel) p name len
        ≡ (if name_ends name len then not_found else resume fuel (p + 1) (skip_to_slash name len))
  unfolding find
  find_slash fuel p name len h k r t = rw (find, h, k, r, t) refl

  -- What `find` does behind a char.
  abbrev step : ℕ → Bytes → ℕ → Comparison → Option ℕ → Search
  step fuel name len way none = unfinished
  step fuel name len way (some p) = elim way [
    | equal ↦ find byte signed fuel p (drop 1 name) (len - 1)
    | less ↦ find byte signed fuel p name len
    | greater ↦ find byte signed fuel p name len
  ]

  find_char :
      (fuel p : ℕ) (name : Bytes) (len : ℕ)
      → (byte p == 0) ≡ false
      → leb 128 (byte p) ≡ false
      → leb (byte p) 31 ≡ false
      → (byte p == 47) ≡ false
      → let way = compare_char signed name len (byte p) in
        find byte signed (suc fuel) p name len ≡ step fuel name len way (branch byte way p)
  unfolding find
  find_char fuel p name len h k r t = rw (find, h, k, r, t) refl

  resumed :
      (fuel p : ℕ) (t : Tree)
      → ((name : Bytes) (len : ℕ) → find byte signed fuel p name len ≡ lookup signed t name len)
      → (r : Option (Bytes × ℕ))
      → resume fuel p r
        ≡ elim r [ none ↦ not_found | some (name', len') ↦ lookup signed t name' len' ]
  resumed fuel p t h none = refl
  resumed fuel p t h (some (name, len)) = h name len

  stepped :
      (fuel p c : ℕ) (l g e : Tree) (v p1 w p2 : ℕ) (name : Bytes) (len : ℕ)
      → decode_int byte (p + 1) ≡ some (v, p1)
      → decode_int byte p1 ≡ some (w, p2)
      → find byte signed fuel (p1 + v - 1) name len ≡ lookup signed l name len
      → find byte signed fuel (p2 + w - 1) name len ≡ lookup signed g name len
      → find byte signed fuel p2 (drop 1 name) (len - 1) ≡ lookup signed e (drop 1 name) (len - 1)
      → (way : Comparison)
      → step fuel name len way (branch byte way p) ≡ elim way [
        | equal ↦ lookup signed e (drop 1 name) (len - 1)
        | less ↦ lookup signed l name len
        | greater ↦ lookup signed g name len
      ]
  stepped fuel p c l g e v p1 w p2 name len first second hl hg he less =
      ap (step fuel name len less) (branch-less byte p v p1 w p2 first second) ∙ hl
  stepped fuel p c l g e v p1 w p2 name len first second hl hg he equal =
      ap (step fuel name len equal) (branch-equal byte p v p1 w p2 first second) ∙ he
  stepped fuel p c l g e v p1 w p2 name len first second hl hg he greater =
      ap (step fuel name len greater) (branch-greater byte p v p1 w p2 first second) ∙ hg

  -- `find` gives what `lookup` gives on the tree that the memory has at the pointer, for every name
  -- and length: as many rounds as the tree is high are enough.
  pub find-lookup :
      (t : Tree) (fuel p : ℕ) (name : Bytes) (len : ℕ)
      → Holds byte p t
      → height t ≤ fuel
      → find byte signed fuel p name len ≡ lookup signed t name len
  find-lookup end zero p name len h n = absurd (omega (arith, n))
  find-lookup (object o) zero p name len h n = absurd (omega (arith, n))
  find-lookup (skip k t) zero p name len h n = absurd (omega (arith, n))
  find-lookup (slash t) zero p name len h n = absurd (omega (arith, n))
  find-lookup (node c l g e) zero p name len h n = absurd (omega (arith, n))
  find-lookup end (suc fuel) p name len h n = find_end fuel p name len (ground (arith, h))
  find-lookup (object o) (suc fuel) p name len (b, r) n =
      find_object fuel p name len o (ground (arith, b)) (ground (arith, b)) r
  find-lookup (skip k t) (suc fuel) p name len (b, (some_k, (few, h))) n =
      find_skip fuel p name len (ground (arith, b, some_k)) (ground (arith, b, few))
        (ground (arith, b, few))
      ∙ ap
          (λ m.
            if name_ends name len then not_found else resume fuel (p + 1) (skip_chars m name len))
          b
      ∙ ap (λ r. if name_ends name len then not_found else r)
          (resumed fuel (p + 1) t (λ a b. find-lookup t fuel (p + 1) a b h (omega (arith, n)))
            (skip_chars k name len))
  find-lookup (slash t) (suc fuel) p name len (b, h) n =
      find_slash fuel p name len (ground (arith, b)) (ground (arith, b)) (ground (arith, b))
        (ground (arith, b))
      ∙ ap (λ r. if name_ends name len then not_found else r)
          (resumed fuel (p + 1) t (λ a b. find-lookup t fuel (p + 1) a b h (omega (arith, n)))
            (skip_to_slash name len))
  find-lookup (node c l g e) (suc fuel) p name len
        (b, (low, (high, (other, (v, (p1, (w, (p2, (first, (second, (hl, (hg, he)))))))))))) n =
      find_char fuel p name len (ground (arith, b, low)) (ground (arith, b, high))
        (ground (arith, b, low)) (ground (arith, b, other))
      ∙ ap
          (λ m.
            step fuel name len (compare_char signed name len m)
              (branch byte (compare_char signed name len m) p))
          b
      ∙ stepped fuel p c l g e v p1 w p2 name len first second
          (find-lookup l fuel (p1 + v - 1) name len hl (omega (arith, n)))
          (find-lookup g fuel (p2 + w - 1) name len hg (omega (arith, n)))
          (find-lookup e fuel p2 (drop 1 name) (len - 1) he (omega (arith, n)))
          (compare_char signed name len c)
