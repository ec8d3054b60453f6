-- ===== src/Synchronizer/StoreJournal/Message/Terminates.antt =====
-- decodeUpdates of StoreJournal (src/synchronizer.cpp) ends: every update takes bytes.
use libstored.Prelude.{
  ℕ, zero, suc, ◌≡◌, refl, Bool, true, false, not, ◌&&◌, ◌||◌, List, [], ◌∷◌, arith, length,
  length-drop, drop, Bool-cases, inl, inr, ◌⊎◌,
}
use libstored.Prelude.{◌+◌, ◌<◌, ◌≤◌, ltb}
use libstored.Protocol.{Bytes}
use libstored.Synchronizer.Journal.{ObjectInfo}
use libstored.Synchronizer.StoreJournal.{StoreJournal}
use libstored.Synchronizer.StoreJournal.Message.{
  Decoded, applied, failed, overrun, out_of_fuel, has_type, decode_key, decode_updates,
  key_to_buffer_ok,
}

decode_key_ways :
    (j : StoreJournal) (buffer : Bytes)
    → (((decode_key j buffer).2 ≡ false) × ((decode_key j buffer).1 ≡ buffer))
      ⊎ ((0 < j.key_size)
          × (j.key_size ≤ length buffer)
          × ((decode_key j buffer).1 ≡ drop j.key_size buffer))
unfolding decode_key has_type
decode_key_ways j buffer =
    elim (Bool-cases (ltb (length buffer) j.key_size || not (has_type j.key_size))) [
      | inl h ↦ inl (rw h (refl, refl))
      | inr h ↦ inr (ground arith, ground arith, rw h refl)
    ]

decode_key_no_longer :
    (j : StoreJournal) (buffer : Bytes) → length (decode_key j buffer).1 ≤ length buffer
decode_key_no_longer j buffer = elim (decode_key_ways j buffer) [
  | inl (_, e) ↦ rw e (omega arith)
  | inr (_, _, e) ↦ rw e (omega (arith, length-drop j.key_size buffer))
]

decode_key_shorter :
    (j : StoreJournal) (buffer : Bytes)
    → (decode_key j buffer).2 ≡ true
    → length (decode_key j buffer).1 < length buffer
decode_key_shorter j buffer h = elim (decode_key_ways j buffer) [
  | inl (f, _) ↦ absurd (ground (arith, f, h))
  | inr (some, enough, e) ↦ rw e (omega (arith, some, enough, length-drop j.key_size buffer))
]

abbrev pub has_result : Decoded → Bool
has_result out_of_fuel = false
has_result (applied j seq) = true
has_result (failed j rest) = true
has_result overrun = true

-- `decodeUpdates` ends on every buffer, whatever it has: as much fuel as there are bytes is enough.
pub decode_updates-has_result :
    (sort : List ObjectInfo → List ObjectInfo) (fuel : ℕ) (record_all : Bool) (buffer : Bytes)
    (j : StoreJournal)
    → length buffer ≤ fuel
    → has_result (decode_updates sort fuel record_all buffer j) ≡ true
unfolding decode_updates
decode_updates-has_result sort fuel record_all [] j h = refl
decode_updates-has_result sort zero record_all (b ∷ bs) j h = absurd (omega arith)
decode_updates-has_result sort (suc fuel) record_all (b ∷ bs) j h =
    elim (Bool-cases (
      not (first.2 && second.2 && key_to_buffer_ok j first.0 second.0)
      || ltb (length second.1) second.0)) [
        | inl stop ↦ rw stop refl
        | inr go ↦
            rw go
              (elim (Bool-cases (ltb 0 second.0 && ltb (length j.buffer) (first.0 + second.0))) [
                | inl past ↦ rw past refl
                | inr within ↦ rw within (
                    decode_updates-has_result sort fuel record_all (drop second.0 second.1) _ (
                      omega (
                        arith,
                        h,
                        length-drop second.0 second.1,
                        decode_key_no_longer j first.1,
                        decode_key_shorter j (b ∷ bs) (ground (arith, go)),
                      )))
              ])
      ]
  where
    first : ℕ × Bytes × Bool
    first = decode_key j (b ∷ bs)

    second : ℕ × Bytes × Bool
    second = decode_key j first.1
