-- ===== src/Synchronizer/StoreJournal/Message/Round.antt =====
-- A round of decodeUpdates of StoreJournal (src/synchronizer.cpp).
use libstored.Prelude.{
  ℕ, suc, ◌≡◌, refl, Bool, not, ◌&&◌, ◌||◌, List, [], ◌∷◌, arith, length, drop, take,
}
use libstored.Prelude.{if◌then◌else◌, ◌+◌, ◌<◌, ltb}
use libstored.Protocol.{Bytes}
use libstored.Synchronizer.Journal.{ObjectInfo}
use libstored.Synchronizer.StoreJournal.{StoreJournal}
use libstored.Synchronizer.StoreJournal.Message.{
  Decoded, failed, overrun, decode_key, decode_updates, apply_update, key_to_buffer_ok,
}

module _ (sort : List ObjectInfo → List ObjectInfo) (record_all : Bool) where
  -- A round of `decodeUpdates`, by what it decodes.
  abbrev pub conclude : ℕ → StoreJournal → ℕ → Bool → ℕ × Bytes × Bool → Decoded
  conclude fuel d key key_ok second =
      let rest =
        decode_updates sort fuel record_all (drop second.0 second.1)
          (apply_update sort record_all key (take second.0 second.1) d) in
      if not (key_ok && second.2 && key_to_buffer_ok d key second.0)
        || ltb (length second.1) second.0
      then failed d second.1
      else if ltb 0 second.0 && ltb (length d.buffer) (key + second.0)
      then overrun
      else rest

  pub opened :
      (fuel : ℕ) (bytes : Bytes) (d : StoreJournal)
      → 0 < length bytes
      → decode_updates sort (suc fuel) record_all bytes d
        ≡ conclude fuel d
            (decode_key d bytes).0
            (decode_key d bytes).2
            (decode_key d (decode_key d bytes).1)
  unfolding decode_updates
  opened fuel [] d h = absurd (omega arith)
  opened fuel (b ∷ bs) d h = refl
