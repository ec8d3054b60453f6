-- ===== src/Synchronizer/StoreJournal/Erase/Moved.antt =====
-- The removal of an element by StoreJournal::clean (src/synchronizer.cpp): the last one takes its
-- place.
use libstored.Prelude.{
  ℕ, suc, ◌≡◌, refl, sym, ap, ◌∙◌, List, [], ◌∷◌, ◌++◌, arith, length, length-append, length-take,
  take, get_or, take-append, get_or-append_right, append-nil,
}
use libstored.Prelude.{◌+◌, ◌-◌}
use mathlib.Core.Path.{subst}
use mathlib.Core.List.{Permᴰ}
use mathlib.Core.List.Permᴰ
use libstored.Synchronizer.Journal.{ObjectInfo}
use libstored.Synchronizer.StoreJournal.Clean.{moved, last_cut}

perm_middle : (o : ObjectInfo) (xs ys : List ObjectInfo) → Permᴰ (o ∷ (xs ++ ys)) (xs ++ (o ∷ ys))
perm_middle o [] ys = Permᴰ.refl (o ∷ ys)
perm_middle o (x ∷ xs) ys =
    Permᴰ.trans (Permᴰ.swap refl refl) (Permᴰ.cons refl (perm_middle o xs ys))

perm_append : (ys xs zs : List ObjectInfo) → Permᴰ xs zs → Permᴰ (ys ++ xs) (ys ++ zs)
perm_append [] xs zs p = p
perm_append (y ∷ ys) xs zs p = Permᴰ.cons refl (perm_append ys xs zs p)

perm_snoc : (last : ObjectInfo) (init : List ObjectInfo) → Permᴰ (last ∷ init) (init ++ (last ∷ []))
perm_snoc last init = rw (append-nil init) at (perm_middle last init [])

module _ (now oldest : ℕ) where
  last_of :
      (ys : List ObjectInfo) (o : ObjectInfo) (init : List ObjectInfo) (last d : ObjectInfo)
      → get_or
          (ys ++ (o ∷ (init ++ (last ∷ []))))
          (length (ys ++ (o ∷ (init ++ (last ∷ [])))) - 1)
          d
        ≡ last
  last_of ys o init last d =
      get_or-append_right ys (o ∷ (init ++ (last ∷ []))) _ (suc (length init)) d (
        omega (arith, length-append ys (o ∷ (init ++ (last ∷ []))), length-append init (last ∷ [])))
      ∙ get_or-append_right init (last ∷ []) (length init) 0 d (omega arith)

  moved_snoc :
      (ys : List ObjectInfo) (o : ObjectInfo) (init : List ObjectInfo) (last : ObjectInfo)
      → moved now oldest ys o (init ++ (last ∷ [])) ≡ ys ++ (last ∷ init)
  moved_snoc ys o init last =
      let long : length (init ++ (last ∷ [])) ≡ suc (length init) =
        omega (arith, length-append init (last ∷ [])) in
      ap
        (λ n.
          ys
          ++ take n (
              get_or (ys ++ (o ∷ (init ++ (last ∷ []))))
                (length (ys ++ (o ∷ (init ++ (last ∷ [])))) - 1) o
              ∷ (init ++ (last ∷ []))))
        long
      ∙ ap (λ x. ys ++ (x ∷ take (length init) (init ++ (last ∷ [])))) (last_of ys o init last o)
      ∙ ap (λ r. ys ++ (last ∷ r)) (take-append init (last ∷ []))

  moved_snoc_perm :
      (ys : List ObjectInfo) (o : ObjectInfo) (init : List ObjectInfo) (last : ObjectInfo)
      → Permᴰ (o ∷ moved now oldest ys o (init ++ (last ∷ []))) (ys ++ (o ∷ (init ++ (last ∷ []))))
  moved_snoc_perm ys o init last = rw (moved_snoc ys o init last) (
      Permᴰ.trans (perm_middle o ys (last ∷ init)) (
        perm_append ys (o ∷ last ∷ init) (o ∷ (init ++ (last ∷ [])))
          (Permᴰ.cons refl (perm_snoc last init))))

  -- An element taken away: the others are still there.
  pub moved_perm :
      (ys : List ObjectInfo) (o : ObjectInfo) (rest : List ObjectInfo)
      → Permᴰ (o ∷ moved now oldest ys o rest) (ys ++ (o ∷ rest))
  moved_perm ys o [] = rw (append-nil ys) (perm_snoc o ys)
  moved_perm ys o (r ∷ rest) =
      let (init, last, e, _) = last_cut now oldest (length rest) (r ∷ rest) refl in
      subst (λ t. Permᴰ (o ∷ moved now oldest ys o t) (ys ++ (o ∷ t))) (sym e)
        (moved_snoc_perm ys o init last)

  pub length-moved :
      (ys : List ObjectInfo) (o : ObjectInfo) (rest : List ObjectInfo)
      → length (moved now oldest ys o rest) ≡ length ys + length rest
  length-moved ys o rest =
      length-append ys _ ∙ ap (λ n. length ys + n) (length-take (length rest) _ ∙ omega arith)
