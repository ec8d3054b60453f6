-- ===== src/Synchronizer/StoreJournal/Message/Receive.antt =====
-- decodeUpdates of StoreJournal (src/synchronizer.cpp), of what encodeUpdates of another store has
-- encoded: the stores have the same bytes then, where objects have changed.
use libstored.Prelude.{
  ℕ, zero, suc, ◌≡◌, refl, sym, ap, ap₂, ◌∙◌, Bool, true, false, ◌&&◌, ◌||◌, List, [], ◌∷◌, ◌++◌,
  arith, length, length-append, drop, get_or, take-append_left, drop-append, inl, inr,
}
use libstored.Prelude.{if◌then◌else◌, ◌+◌, ◌^◌, ◌<◌, ◌≤◌, ltb, leb}
use libstored.Protocol.{Bytes, frames}
use libstored.Synchronizer.Journal.{ObjectInfo}
use libstored.Synchronizer.StoreJournal.{StoreJournal, changed, bump_seq, iterate_changed}
use libstored.Synchronizer.StoreJournal.Message.{
  Decoded, applied, encode_updates, decode_key, decode_updates, apply_update, key_to_buffer_ok,
  copy_to,
}
use libstored.Synchronizer.StoreJournal.Message.Numbers.{
  key_bytes, length-key_bytes, decode_key-encode_key,
}
use libstored.Synchronizer.StoreJournal.Message.Copy.{
  slice, length-slice, length-copy_to, copy_to-slice, bump_seq-buffer,
}
use libstored.Synchronizer.StoreJournal.Message.Updates.{
  update_bytes, AllInStore, IsStore, encode_updates_frame,
}
use libstored.Synchronizer.StoreJournal.Message.Round.{conclude, opened}

-- Two stores of the same kind.
pub record SameStore (a b : StoreJournal) : Type 0 where
  pub little : b.little ≡ a.little
  pub key_size : b.key_size ≡ a.key_size
  pub size : length b.buffer ≡ length a.buffer

-- Whether one of the objects has the byte at a position.
abbrev pub covered : ℕ → List ObjectInfo → Bool
covered i [] = false
covered i (o ∷ objs) = leb o.key i && ltb i (o.key + o.len) || covered i objs

module _ (sort : List ObjectInfo → List ObjectInfo) (record_all : Bool) (src : StoreJournal)
    (s : IsStore src) where
  -- The updates of some objects, applied one after the other.
  abbrev receive : List ObjectInfo → StoreJournal → StoreJournal
  receive [] d = d
  receive (o ∷ objs) d =
      receive objs (apply_update sort record_all o.key (slice src.buffer o.key o.len) d)

  apply-buffer :
      (key : ℕ) (bytes : Bytes) (d : StoreJournal)
      → ((apply_update sort record_all key bytes d).buffer ≡ copy_to d.buffer key bytes)
        × ((apply_update sort record_all key bytes d).little ≡ d.little)
        × ((apply_update sort record_all key bytes d).key_size ≡ d.key_size)
  unfolding apply_update changed
  apply-buffer key bytes d = (refl, refl, refl)

  apply-SameStore :
      (o : ObjectInfo) (d : StoreJournal)
      → o.key + o.len ≤ length src.buffer
      → SameStore src d
      → SameStore src (apply_update sort record_all o.key (slice src.buffer o.key o.len) d)
  apply-SameStore o d h same =
      let (b, l, k) = apply-buffer o.key (slice src.buffer o.key o.len) d in
      record {
        little = l ∙ same.little;
        key_size = k ∙ same.key_size;
        size =
            ap length b
            ∙ length-copy_to d.buffer o.key (slice src.buffer o.key o.len)
                (omega (arith, h, same.size, length-slice src.buffer o.key o.len h))
            ∙ same.size;
      }

  -- Each byte comes from the sender where an object covers it.
  receive-covered :
      (objs : List ObjectInfo) (d : StoreJournal) (i : ℕ)
      → AllInStore src.buffer objs
      → SameStore src d
      → get_or (receive objs d).buffer i 0
        ≡ (if covered i objs then get_or src.buffer i 0 else get_or d.buffer i 0)
  receive-covered [] d i h same = refl
  receive-covered (o ∷ objs) d i h same =
      receive-covered objs (apply_update sort record_all o.key (slice src.buffer o.key o.len) d) i
        h.1 (apply-SameStore o d h.0 same)
      ∙ rw
          (
            (apply-buffer o.key (slice src.buffer o.key o.len) d).0,
            copy_to-slice src.buffer d.buffer o.key o.len i h.0 same.size,
          )
          (by_bit (leb o.key i && ltb i (o.key + o.len)) (covered i objs))
    where
      by_bit :
          (a b : Bool)
          → (if b
              then get_or src.buffer i 0
              else (if a then get_or src.buffer i 0 else get_or d.buffer i 0))
            ≡ (if a || b then get_or src.buffer i 0 else get_or d.buffer i 0)
      by_bit true true = refl
      by_bit true false = refl
      by_bit false true = refl
      by_bit false false = refl

  abbrev result : StoreJournal → Decoded
  result d = let d' = bump_seq false d in applied d' d'.seq

  decode_key_of :
      (key : ℕ) (rest : Bytes) (d : StoreJournal)
      → key ≤ length src.buffer
      → SameStore src d
      → decode_key d (key_bytes src.little src.key_size key ++ rest) ≡ (key, rest, true)
  decode_key_of key rest d h same =
      rw (← same.little, ← same.key_size)
        (decode_key-encode_key d key rest (rw same.key_size s.typed)
          (rw same.key_size (omega (arith, h, s.size)))).1

  small : length src.buffer < 2 ^ 32
  small = elim s.typed [
    | inl e ↦ omega (arith, rw e at s.size)
    | inr (inl e) ↦ omega (arith, rw e at s.size)
    | inr (inr e) ↦ omega (arith, rw e at s.size)
  ]

  typed_some : 0 < src.key_size
  typed_some = ground (arith, s.typed)

  -- One update, decoded.
  decode_one :
      (fuel : ℕ) (o : ObjectInfo) (rest : Bytes) (d : StoreJournal)
      → o.key + o.len ≤ length src.buffer
      → SameStore src d
      → decode_updates sort
          (suc fuel)
          record_all
          (key_bytes src.little src.key_size o.key
            ++ (key_bytes src.little src.key_size o.len ++ (slice src.buffer o.key o.len ++ rest)))
          d
        ≡ decode_updates sort fuel record_all rest
            (apply_update sort record_all o.key (slice src.buffer o.key o.len) d)
  decode_one fuel o rest d h same =
      opened sort record_all fuel (key_bytes src.little src.key_size o.key ++ more) d (
        omega (
          arith,
          typed_some,
          length-append (key_bytes src.little src.key_size o.key) more,
          length-key_bytes src.little src.key_size o.key s.typed,
        ))
      ∙ ap (λ f. conclude sort record_all fuel d f.0 f.2 (decode_key d f.1))
          (decode_key_of o.key more d (omega (arith, h)) same)
      ∙ ap (conclude sort record_all fuel d o.key true)
          (decode_key_of o.len (slice src.buffer o.key o.len ++ rest) d (omega (arith, h)) same)
      ∙ rw (accepted, enough, within)
          (ap₂
            (λ a b. decode_updates sort fuel record_all a (apply_update sort record_all o.key b d))
            (ap (λ n. drop n (slice src.buffer o.key o.len ++ rest)) (sym long)
              ∙ drop-append (slice src.buffer o.key o.len) rest)
            (take-append_left (slice src.buffer o.key o.len) rest o.len (sym long)))
    where
      more : Bytes
      more = key_bytes src.little src.key_size o.len ++ (slice src.buffer o.key o.len ++ rest)

      long : length (slice src.buffer o.key o.len) ≡ o.len
      long = length-slice src.buffer o.key o.len h

      accepted : key_to_buffer_ok d o.key o.len ≡ true
      accepted = unfold key_to_buffer_ok in ground (arith, h, same.size, small)

      enough : ltb (length (slice src.buffer o.key o.len ++ rest)) o.len ≡ false
      enough = ground (arith, long, length-append (slice src.buffer o.key o.len) rest)

      within : (ltb 0 o.len && ltb (length d.buffer) (o.key + o.len)) ≡ false
      within = ground (arith, h, same.size)

  decode_all :
      (fuel : ℕ) (objs : List ObjectInfo) (d : StoreJournal)
      → length objs ≤ fuel
      → AllInStore src.buffer objs
      → SameStore src d
      → decode_updates sort fuel record_all (update_bytes src.little src.key_size src.buffer objs) d
        ≡ result (receive objs d)
  unfolding decode_updates
  decode_all zero [] d n h same = refl
  decode_all (suc fuel) [] d n h same = refl
  decode_all zero (o ∷ objs) d n h same = absurd (omega arith)
  decode_all (suc fuel) (o ∷ objs) d n h same =
      decode_one fuel o (update_bytes src.little src.key_size src.buffer objs) d h.0 same
      ∙ decode_all fuel objs (apply_update sort record_all o.key (slice src.buffer o.key o.len) d)
          (omega (arith, n)) h.1 (apply-SameStore o d h.0 same)

  bytes_enough :
      (objs : List ObjectInfo)
      → length objs ≤ length (update_bytes src.little src.key_size src.buffer objs)
  bytes_enough [] = omega arith
  bytes_enough (o ∷ objs) = omega (
    arith,
    bytes_enough objs,
    typed_some,
    length-key_bytes src.little src.key_size o.key s.typed,
    length-append (key_bytes src.little src.key_size o.key) (
        key_bytes src.little src.key_size o.len
        ++ (slice src.buffer o.key o.len ++ update_bytes src.little src.key_size src.buffer objs)),
    length-append (key_bytes src.little src.key_size o.len)
        (slice src.buffer o.key o.len ++ update_bytes src.little src.key_size src.buffer objs),
    length-append (slice src.buffer o.key o.len)
        (update_bytes src.little src.key_size src.buffer objs),
  )

  -- What the receiver makes of a frame of updates: it applies it all, and has the sender's bytes
  -- where an object covers them.
  abbrev pub Receives : ℕ → StoreJournal → Bytes → StoreJournal → Type 0
  Receives since dst bytes dst' =
      (frames [] (encode_updates since true src).0 ≡ bytes ∷ [])
      × (decode_updates sort (length bytes) record_all bytes dst ≡ applied dst' dst'.seq)
      × ((i : ℕ)
          → get_or dst'.buffer i 0 ≡ (
              if covered i (iterate_changed since src)
              then get_or src.buffer i 0
              else get_or dst.buffer i 0))

  -- Updates reach a store of the same size and byte order, if the keys of the sender take 1, 2 or 4
  -- bytes that are enough for its size, and the objects that `iterateChanged` visits lie within it:
  -- `encodeUpdates` completes one frame, `decodeUpdates` applies all of it, and then every byte of
  -- these objects is the sender's, and every other one is as it was.
  pub decode_updates-encode_updates :
      (since : ℕ) (dst : StoreJournal)
      → AllInStore src.buffer (iterate_changed since src)
      → SameStore src dst
      → (bytes : Bytes) × (dst' : StoreJournal) × Receives since dst bytes dst'
  decode_updates-encode_updates since dst h same = (
    update_bytes src.little src.key_size src.buffer objs,
    bump_seq false (receive objs dst),
    (
      encode_updates_frame src s since h,
      decode_all _ objs dst (bytes_enough objs) h same,
      λ i. rw (bump_seq-buffer (receive objs dst)) (receive-covered objs dst i h same),
    ),
  )
    where
      objs : List ObjectInfo
      objs = iterate_changed since src
