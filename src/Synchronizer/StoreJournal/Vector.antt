-- ===== src/Synchronizer/StoreJournal/Vector.antt =====
-- The vector of StoreJournal (src/synchronizer.cpp): what makes it valid, and that `update` and
-- `regenerate` keep it so.
use libstored.Prelude.{ℕ, ◌≡◌, sym, ap, ◌∙◌, List, arith, length}
use libstored.Prelude.{◌==◌, if◌then◌else◌, ◌^◌, ◌<◌}
use libstored.Synchronizer.Journal.{ObjectInfo, update, regenerate}
use libstored.Synchronizer.Journal.ShortSeq.{InWindow, IsShort}
use libstored.Synchronizer.Journal.Stamp.{keys, stamp, IsAscending}
use libstored.Synchronizer.Journal.Find.{IsTree, is_since, search_changed-stamp}
use libstored.Synchronizer.Journal.Update.{AllShort, update-keys, update-length, update-AllShort}
use libstored.Synchronizer.Journal.Update.Tree.{update-IsTree}
use libstored.Synchronizer.Journal.Update.Stamps.{restamp, update-stamp}
use libstored.Synchronizer.Journal.Regenerate.{
  bare, regenerate-bare, regenerate-length, regenerate-IsTree, SeqsShort, stamp-bare, keys-bare,
}
use libstored.Synchronizer.Journal.Sort.{
  IsSort, AllDifferent, sorted-IsAscending, sorted-stamp, perm_back-All,
}
use libstored.Synchronizer.StoreJournal.{StoreJournal, has_changed, regenerate_all}

-- A sorted vector that is a tree, whose short numbers have a long form.
pub record IsVector (now : ℕ) (xs : List ObjectInfo) : Type 0 where
  pub short : AllShort now xs
  pub ascending : IsAscending (keys xs)
  pub tree : IsTree (length xs) now xs

pub record IsJournal (j : StoreJournal) : Type 0 where
  pub small : j.seq < 2 ^ 64
  pub vector : IsVector j.seq j.changes

-- `hasChanged` is a lookup of the record.
pub has_changed-stamp :
    (key since : ℕ) (j : StoreJournal)
    → IsVector j.seq j.changes
    → has_changed key since j ≡ is_since j.seq since (stamp key j.changes)
unfolding has_changed
has_changed-stamp key since j v =
    search_changed-stamp j.seq key since (length j.changes) j.changes (omega arith) v.ascending
      v.tree

pub now_window : (now : ℕ) → InWindow now now
now_window now = omega arith

-- An update of a vector.
module _ (now key len seq : ℕ) (small : now < 2 ^ 64) (window : InWindow now seq)
    (xs : List ObjectInfo) (v : IsVector now xs) where
  abbrev pub updated : List ObjectInfo
  updated = (update (length xs) now key len seq xs).0

  pub update-IsVector : IsVector now updated
  update-IsVector = record {
    short = update-AllShort now key len seq small window (length xs) xs (omega arith) v.short;
    ascending = rw (update-keys now key len seq (length xs) xs (omega arith)) v.ascending;
    tree = rw (update-length now key len seq (length xs) xs (omega arith)) (
        update-IsTree now key len seq small window (length xs) xs (omega arith) (omega arith)
          v.short v.tree);
  }

  pub update_vector-stamp :
      (k : ℕ)
      → stamp k updated ≡ (if k == key then restamp now key len seq (stamp k xs) else stamp k xs)
  update_vector-stamp k =
      (update-stamp now key len seq k (length xs) xs (omega arith) (omega arith) v.ascending).0

-- What `regenerate` makes of elements with different keys.
module _ (sort : List ObjectInfo → List ObjectInfo) (sorts : IsSort sort) (now : ℕ)
    (small : now < 2 ^ 64) (xs : List ObjectInfo) (different : AllDifferent xs) where
  sort_seqs : SeqsShort now xs → SeqsShort now (sort xs)
  sort_seqs = perm_back-All (λ (o : ObjectInfo). IsShort now o.seq) (sort xs) xs (sorts xs).0

  abbrev regenerated : List ObjectInfo
  regenerated = (regenerate (length (sort xs)) now (sort xs)).0

  bare_kept : bare regenerated ≡ bare (sort xs)
  bare_kept = regenerate-bare now (length (sort xs)) (sort xs) (omega arith)

  pub regenerate_all-stamp : (k : ℕ) → stamp k (regenerate_all sort now xs) ≡ stamp k xs
  unfolding regenerate_all
  regenerate_all-stamp k =
      sym (stamp-bare k regenerated)
      ∙ ap (stamp k) bare_kept
      ∙ stamp-bare k (sort xs)
      ∙ sorted-stamp sort sorts k xs different

  keys_kept : keys regenerated ≡ keys (sort xs)
  keys_kept = sym (keys-bare regenerated) ∙ ap keys bare_kept ∙ keys-bare (sort xs)

  pub regenerate_all-IsVector : SeqsShort now xs → IsVector now (regenerate_all sort now xs)
  unfolding regenerate_all
  regenerate_all-IsVector h =
      let (tree, short) =
        regenerate-IsTree now small (length (sort xs)) (sort xs) (omega arith) (sort_seqs h) in
      record {
        short = short;
        ascending = rw keys_kept (sorted-IsAscending sort sorts xs different);
        tree = rw (regenerate-length now (length (sort xs)) (sort xs) (omega arith)) tree;
      }
