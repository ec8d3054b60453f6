-- ===== src/Synchronizer/StoreJournal.antt =====
-- StoreJournal (src/synchronizer.cpp): the buffer of a store, the vector of its changes, and the
-- sequence numbers. std::sort is a parameter.
pub mod Vector
pub mod Changed
pub mod Later
pub mod Bump
pub mod Window
pub mod Stale
pub mod Reach
pub mod Clean
pub mod Erase
pub mod Message
use libstored.Prelude.{
  ℕ, zero, suc, Bool, true, false, not, ◌&&◌, ◌||◌, List, [], ◌∷◌, ◌++◌, map, Option, none, some,
}
use libstored.Prelude.{
  ◌==◌, if◌then◌else◌, ◌+◌, ◌-◌, ◌*◌, ◌/◌, ◌%◌, ◌^◌, ltb, leb, min, max, length, take, drop, get_or,
  is_empty, sub_size,
}
use libstored.Protocol.{Bytes, Chunk}
use libstored.Synchronizer.Journal.{
  ObjectInfo, seq_lower_margin, seq_clean_threshold, update, regenerate, search_changed, iterate,
}
use libstored.Synchronizer.Journal.Halves.{halves}
use libstored.Synchronizer.Journal.ShortSeq.{short_seq_window, to_short, to_long}

-- `buffer` has the bytes of the store. `little` is Config::StoreInLittleEndian.
pub record StoreJournal : Type 0 where
  pub little : Bool
  pub buffer : Bytes
  pub key_size : ℕ
  pub seq : ℕ
  pub seq_lower : ℕ
  pub partial_seq : Bool
  pub changes : List ObjectInfo

-- The loop of `keySize` on fuel: a size of 64 bits has eight bytes.
unfoldable pub count_bytes : ℕ → ℕ → ℕ
count_bytes zero size = 0
count_bytes (suc fuel) size =
    let rest = count_bytes fuel (size / 256) in if size == 0 then 0 else suc rest

unfoldable pub key_size_of : ℕ → ℕ
unfolding count_bytes
key_size_of size = count_bytes 8 size

unfoldable pub initial : Bool → Bytes → StoreJournal
unfolding key_size_of
initial little buffer = record {
  little = little;
  buffer = buffer;
  key_size = key_size_of (length buffer);
  seq = 1;
  seq_lower = 0;
  partial_seq = false;
  changes = [];
}

abbrev pub safe_range : ℕ
safe_range = short_seq_window - seq_lower_margin

-- The loop of `bumpSeq`, of `n` rounds from `i` on: the vector, and `seqLower`.
unfoldable pub raise_old : ℕ → ℕ → ℕ → ℕ → List ObjectInfo → ℕ → List ObjectInfo × ℕ
unfolding update
raise_old now lower zero i xs seq_lower = (xs, seq_lower)
raise_old now lower (suc n) i xs seq_lower = elim (drop i xs) [
  | [] ↦ (xs, seq_lower)
  | o ∷ _ ↦
      let long = to_long now o.seq in
      let (xs', seq_lower') =
        if ltb safe_range (sub_size now long)
        then ((update (length xs) now o.key o.len lower xs).0, lower)
        else (xs, min seq_lower long) in
      raise_old now lower n (suc i) xs' seq_lower'
]

-- The check of `bumpSeq` at the new sequence number.
unfoldable pub shift_window : StoreJournal → StoreJournal
unfolding raise_old sub_size
shift_window j =
    let lower = (sub_size j.seq short_seq_window + 2 * seq_lower_margin) % 2 ^ 64 in
    let (xs, seq_lower) = raise_old j.seq lower (length j.changes) 0 j.changes j.seq in
    if ltb safe_range (sub_size j.seq j.seq_lower)
    then record j { seq_lower = seq_lower; changes = xs }
    else j

unfoldable pub bump_seq : Bool → StoreJournal → StoreJournal
unfolding shift_window
bump_seq force j =
    if not force && not j.partial_seq
    then j
    else shift_window (record j { partial_seq = false; seq = (j.seq + 1) % 2 ^ 64 })

-- `hasChanged` of a key, and of any key.
unfoldable pub has_changed : ℕ → ℕ → StoreJournal → Bool
unfolding search_changed
has_changed key since j = search_changed (length j.changes) j.seq key since j.changes

unfoldable pub any_changed : ℕ → StoreJournal → Bool
any_changed since j = elim (halves j.changes) [
  | none ↦ false
  | some (before, o, behind) ↦ leb since (to_long j.seq o.highest)
]

unfoldable pub iterate_changed : ℕ → StoreJournal → List ObjectInfo
unfolding iterate
iterate_changed since j = iterate (length j.changes) j.seq since j.changes

-- The loop of `clean`, from element `n` down: the elements that are left.
unfoldable pub erase_old : ℕ → ℕ → ℕ → List ObjectInfo → List ObjectInfo
erase_old now oldest zero xs = xs
erase_old now oldest (suc n) xs = elim (drop n xs) [
  | [] ↦ erase_old now oldest n xs
  | o ∷ rest ↦
      let moved = take n xs ++ take (length rest) (get_or xs (length xs - 1) o ∷ rest) in
      erase_old now oldest n (if ltb (to_long now o.seq) oldest then moved else xs)
]

module _ (sort : List ObjectInfo → List ObjectInfo) where
  unfoldable pub regenerate_all : ℕ → List ObjectInfo → List ObjectInfo
  unfolding regenerate
  regenerate_all now xs = let sorted = sort xs in (regenerate (length sorted) now sorted).0

  unfoldable pub changed : ℕ → ℕ → Bool → StoreJournal → StoreJournal
  unfolding update regenerate_all
  changed key len insert_if_new j =
      let (xs, found) = update (length j.changes) j.seq key len j.seq j.changes in
      let short = to_short j.seq in
      let o : ObjectInfo = record { key = key; len = len % 2 ^ 32; seq = short; highest = short } in
      record j {
        partial_seq = true;
        changes = if not found && insert_if_new then regenerate_all j.seq (xs ++ (o ∷ [])) else xs;
      }

  unfoldable pub clean : ℕ → StoreJournal → StoreJournal
  unfolding erase_old regenerate_all sub_size
  clean oldest j =
      let from = if oldest == 0 then sub_size j.seq seq_clean_threshold else oldest in
      let xs = erase_old j.seq from (length j.changes) j.changes in
      record j { changes = if length xs == length j.changes then xs else regenerate_all j.seq xs }
