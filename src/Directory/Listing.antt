-- ===== src/Directory/Listing.antt =====
-- list (src/directory.cpp) calls its callback for each object of the tree that the memory has.
use libstored.Prelude.{
  ℕ, zero, suc, ◌≡◌, refl, sym, ap, ap₂, ◌∙◌, true, false, List, [], ◌∷◌, ◌++◌, append-nil,
  append_assoc, Option, some, arith,
}
use libstored.Prelude.{◌==◌, ◌+◌, ◌-◌, ◌≤◌, leb}
use libstored.Protocol.{Bytes}
use libstored.Directory.{Object, unknown, read_object, list, join, pointers}
use libstored.Directory.Tree.{Tree, end, object, skip, slash, node, height, Holds, names, prefix}
use libstored.Directory.Numbers.{pointers-decode_int}

prefix-append :
    (more : Bytes) (xs ys : List (Bytes × Object))
    → prefix more (xs ++ ys) ≡ prefix more xs ++ prefix more ys
prefix-append more [] ys = refl
prefix-append more (x ∷ xs) ys = ap (λ r. (more ++ x.0, x.1) ∷ r) (prefix-append more xs ys)

prefix-prefix :
    (a b : Bytes) (xs : List (Bytes × Object)) → prefix a (prefix b xs) ≡ prefix (a ++ b) xs
prefix-prefix a b [] = refl
prefix-prefix a b (x ∷ xs) =
    ap₂ (λ n r. (n, x.1) ∷ r) (sym (append_assoc a b x.0)) (prefix-prefix a b xs)

joined :
    {xs ys zs : Option (List (Bytes × Object))} {ps qs rs : List (Bytes × Object)}
    → xs ≡ some ps
    → ys ≡ some qs
    → zs ≡ some rs
    → join xs (join ys zs) ≡ some (ps ++ (qs ++ rs))
unfolding join
joined a b c = rw (a, b, c) refl

module _ (byte : ℕ → ℕ) where
  list_end :
      (fuel p : ℕ) (name : Bytes) → (byte p == 0) ≡ true → list byte (suc fuel) p name ≡ some []
  unfolding list
  list_end fuel p name h = rw (list, h) refl

  list_object :
      (fuel p : ℕ) (name : Bytes) (o : Object)
      → (byte p == 0) ≡ false
      → leb 128 (byte p) ≡ true
      → read_object byte p ≡ some o
      → list byte (suc fuel) p name ≡ some ((name, o) ∷ [])
  unfolding list
  list_object fuel p name o h k r = rw (list, h, k, r) refl

  list_skip :
      (fuel p : ℕ) (name : Bytes)
      → (byte p == 0) ≡ false
      → leb 128 (byte p) ≡ false
      → leb (byte p) 31 ≡ true
      → list byte (suc fuel) p name ≡ list byte fuel (p + 1) (name ++ unknown (byte p))
  unfolding list
  list_skip fuel p name h k r = rw (list, h, k, r) refl

  list_slash :
      (fuel p : ℕ) (name : Bytes)
      → (byte p == 0) ≡ false
      → leb 128 (byte p) ≡ false
      → leb (byte p) 31 ≡ false
      → (byte p == 47) ≡ true
      → list byte (suc fuel) p name ≡ list byte fuel (p + 1) (name ++ (47 ∷ []))
  unfolding list
  list_slash fuel p name h k r t = rw (list, h, k, r, t) refl

  list_char :
      (fuel p l g e : ℕ) (name : Bytes)
      → (byte p == 0) ≡ false
      → leb 128 (byte p) ≡ false
      → leb (byte p) 31 ≡ false
      → (byte p == 47) ≡ false
      → pointers byte p ≡ some (l, g, e)
      → list byte (suc fuel) p name
        ≡ join
            (list byte fuel l name)
            (join (list byte fuel g name) (list byte fuel e (name ++ (byte p ∷ []))))
  unfolding list
  list_char fuel p l g e name h k r t next = rw (list, h, k, r, t, next) refl

  -- `list` calls its callback once for each object of the tree that the memory has at the pointer,
  -- with the prefix and its name, in the order of the tree: as many rounds as the tree is high are
  -- enough.
  pub list-names :
      (t : Tree) (fuel p : ℕ) (name : Bytes)
      → Holds byte p t
      → height t ≤ fuel
      → list byte fuel p name ≡ some (prefix name (names t))
  list-names end zero p name h n = absurd (omega (arith, n))
  list-names (object o) zero p name h n = absurd (omega (arith, n))
  list-names (skip k t) zero p name h n = absurd (omega (arith, n))
  list-names (slash t) zero p name h n = absurd (omega (arith, n))
  list-names (node c l g e) zero p name h n = absurd (omega (arith, n))
  list-names end (suc fuel) p name h n = list_end fuel p name (ground (arith, h))
  list-names (object o) (suc fuel) p name (b, r) n =
      list_object fuel p name o (ground (arith, b)) (ground (arith, b)) r
      ∙ ap (λ m. some ((m, o) ∷ [])) (sym (append-nil name))
  list-names (skip k t) (suc fuel) p name (b, (some_k, (few, h))) n =
      list_skip fuel p name (ground (arith, b, some_k)) (ground (arith, b, few))
        (ground (arith, b, few))
      ∙ ap (λ m. list byte fuel (p + 1) (name ++ unknown m)) b
      ∙ list-names t fuel (p + 1) (name ++ unknown k) h (omega (arith, n))
      ∙ ap (λ m. some m) (sym (prefix-prefix name (unknown k) (names t)))
  list-names (slash t) (suc fuel) p name (b, h) n =
      list_slash fuel p name (ground (arith, b)) (ground (arith, b)) (ground (arith, b))
        (ground (arith, b))
      ∙ list-names t fuel (p + 1) (name ++ (47 ∷ [])) h (omega (arith, n))
      ∙ ap (λ m. some m) (sym (prefix-prefix name (47 ∷ []) (names t)))
  list-names (node c l g e) (suc fuel) p name
        (b, (low, (high, (other, (v, (p1, (w, (p2, (first, (second, (hl, (hg, he)))))))))))) n =
      list_char fuel p (p1 + v - 1) (p2 + w - 1) p2 name (ground (arith, b, low))
        (ground (arith, b, high)) (ground (arith, b, low)) (ground (arith, b, other))
        (pointers-decode_int byte p v p1 w p2 first second)
      ∙ ap
          (λ m.
            join (list byte fuel (p1 + v - 1) name)
              (join (list byte fuel (p2 + w - 1) name) (list byte fuel p2 (name ++ (m ∷ [])))))
          b
      ∙ joined (list-names l fuel (p1 + v - 1) name hl (omega (arith, n)))
          (list-names g fuel (p2 + w - 1) name hg (omega (arith, n)))
          (list-names e fuel p2 (name ++ (c ∷ [])) he (omega (arith, n)))
      ∙ ap (λ m. some m)
          (ap (λ r. prefix name (names l) ++ (prefix name (names g) ++ r))
              (sym (prefix-prefix name (c ∷ []) (names e)))
            ∙ ap (λ r. prefix name (names l) ++ r)
                (sym (prefix-append name (names g) (prefix (c ∷ []) (names e))))
            ∙ sym (prefix-append name (names l) (names g ++ prefix (c ∷ []) (names e))))
