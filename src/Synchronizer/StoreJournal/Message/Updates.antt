-- ===== src/Synchronizer/StoreJournal/Message/Updates.antt =====
-- encodeUpdates and decodeUpdates of StoreJournal (src/synchronizer.cpp): what has changed in one
-- store reaches another one.
use libstored.Prelude.{
  ℕ, zero, suc, ◌≡◌, refl, sym, ap, ◌∙◌, Bool, true, false, List, [], ◌∷◌, ◌++◌, append_assoc, map,
  concat, All, arith, length, Bool-cases, inl, inr,
}
use libstored.Prelude.{◌+◌, ◌*◌, ◌^◌, ◌<◌, ◌≤◌, ltb, leb}
use libstored.Protocol.{Bytes, frames}
use libstored.Synchronizer.Journal.{ObjectInfo, iterate}
use libstored.Synchronizer.Journal.Halves.{halves, halving, halves-middle, IsMiddle}
use libstored.Synchronizer.Journal.ShortSeq.{to_long}
use libstored.Synchronizer.StoreJournal.{StoreJournal, iterate_changed}
use libstored.Synchronizer.StoreJournal.Message.{encode_update, encode_range, encode_updates}
use libstored.Synchronizer.StoreJournal.Message.Numbers.{HasType, key_bytes, decode_key-encode_key}
use libstored.Synchronizer.StoreJournal.Message.Copy.{slice}

chunks-append :
    (j : StoreJournal) (xs ys : List ObjectInfo)
    → concat (map (encode_update j) (xs ++ ys))
      ≡ concat (map (encode_update j) xs) ++ concat (map (encode_update j) ys)
chunks-append j [] ys = refl
chunks-append j (o ∷ xs) ys =
    ap (λ r. encode_update j o ++ r) (chunks-append j xs ys)
    ∙ sym (append_assoc (encode_update j o) _ _)

-- The walk of `encodeUpdates` encodes what the walk of `iterateChanged` visits.
module _ (j : StoreJournal) (since : ℕ) where
  abbrev Encodes : ℕ → List ObjectInfo → Type 0
  Encodes fuel xs =
      encode_range j fuel since xs ≡ concat (map (encode_update j) (iterate fuel j.seq since xs))

  Encodes-none : (n : ℕ) → Encodes n []
  unfolding encode_range iterate halves
  Encodes-none zero = refl
  Encodes-none (suc n) = refl

  Encodes-node :
      (fuel : ℕ) (before : List ObjectInfo) (o : ObjectInfo) (behind : List ObjectInfo)
      → IsMiddle before behind
      → Encodes fuel before
      → Encodes fuel behind
      → Encodes (suc fuel) (before ++ (o ∷ behind))
  unfolding encode_range iterate
  Encodes-node fuel before o behind m left right =
      rw (halves-middle before o behind m, encode_range, iterate)
        (elim (Bool-cases (ltb (to_long j.seq o.highest) since)) [
          | inl h ↦ rw h refl
          | inr h ↦
              rw (h, left, right)
                (elim (Bool-cases (leb since (to_long j.seq o.seq))) [
                  | inl e ↦ rw e (
                      sym (
                        chunks-append j (iterate fuel j.seq since before)
                          (o ∷ iterate fuel j.seq since behind)))
                  | inr e ↦ rw e (
                      sym (
                        chunks-append j (iterate fuel j.seq since before)
                          (iterate fuel j.seq since behind)))
                ])
        ])

  encode_range-iterate_changed :
      encode_range j (length j.changes) since j.changes
      ≡ concat (map (encode_update j) (iterate_changed since j))
  unfolding iterate_changed
  encode_range-iterate_changed =
      halving Encodes Encodes-none Encodes-node (length j.changes) j.changes (omega arith)

-- The bytes of the updates of some objects.
abbrev pub update_bytes : Bool → ℕ → Bytes → List ObjectInfo → Bytes
update_bytes little n src [] = []
update_bytes little n src (o ∷ objs) =
    key_bytes little n o.key
    ++ (key_bytes little n o.len ++ (slice src o.key o.len ++ update_bytes little n src objs))

-- Objects that lie within a store.
abbrev pub AllInStore : Bytes → List ObjectInfo → Type 0
AllInStore src objs = All (λ (o : ObjectInfo). o.key + o.len ≤ length src) objs

-- A store whose size is one that its keys can reach, with a type for them.
pub record IsStore (j : StoreJournal) : Type 0 where
  pub typed : HasType j.key_size
  pub size : length j.buffer < 2 ^ (8 * j.key_size)

module _ (j : StoreJournal) (s : IsStore j) where
  update_chunks :
      (o : ObjectInfo)
      → o.key + o.len ≤ length j.buffer
      → encode_update j o
        ≡ (key_bytes j.little j.key_size o.key, false)
          ∷ (key_bytes j.little j.key_size o.len, false)
          ∷ (slice j.buffer o.key o.len, false)
          ∷ []
  unfolding encode_update
  update_chunks o h =
      rw
        (
          (decode_key-encode_key j o.key [] s.typed (omega (arith, s.size, h))).0,
          (decode_key-encode_key j o.len [] s.typed (omega (arith, s.size, h))).0,
        )
        refl

  frame_updates :
      (acc : Bytes) (objs : List ObjectInfo)
      → AllInStore j.buffer objs
      → frames acc (concat (map (encode_update j) objs) ++ (([], true) ∷ []))
        ≡ (acc ++ update_bytes j.little j.key_size j.buffer objs) ∷ []
  unfolding frames
  frame_updates acc [] h = refl
  frame_updates acc (o ∷ objs) h = rw (update_chunks o h.0) (
      frame_updates
        (((acc ++ key_bytes j.little j.key_size o.key) ++ key_bytes j.little j.key_size o.len)
          ++ slice j.buffer o.key o.len)
        objs h.1
      ∙ ap (λ b. b ∷ [])
          (append_assoc
              ((acc ++ key_bytes j.little j.key_size o.key) ++ key_bytes j.little j.key_size o.len)
              _ _
            ∙ append_assoc (acc ++ key_bytes j.little j.key_size o.key) _ _
            ∙ append_assoc acc _ _))

  -- `encodeUpdates` completes one frame: the updates of the objects that `iterateChanged` visits.
  pub encode_updates_frame :
      (since : ℕ)
      → AllInStore j.buffer (iterate_changed since j)
      → frames [] (encode_updates since true j).0
        ≡ update_bytes j.little j.key_size j.buffer (iterate_changed since j) ∷ []
  unfolding encode_updates
  encode_updates_frame since h =
      rw (encode_range-iterate_changed j since) (frame_updates [] (iterate_changed since j) h)
