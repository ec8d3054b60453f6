-- ===== src/Synchronizer/StoreJournal/Message/Seq.antt =====
-- The sequence number of a store that decodeUpdates (src/synchronizer.cpp) has updated.
use libstored.Prelude.{
  ℕ, zero, suc, ◌≡◌, refl, sym, Bool, false, not, ◌&&◌, ◌||◌, List, [], ◌∷◌, ◌⊎◌, inl, inr, arith,
  length, take, drop, Bool-cases,
}
use libstored.Prelude.{◌+◌, ◌%◌, ◌^◌, ◌<◌, ◌≤◌, ltb}
use mathlib.Core.Path.{subst}
use libstored.Protocol.{Bytes}
use libstored.Synchronizer.Journal.{ObjectInfo}
use libstored.Synchronizer.StoreJournal.{StoreJournal, bump_seq, shift_window, changed}
use libstored.Synchronizer.StoreJournal.Message.{
  Decoded, applied, failed, overrun, out_of_fuel, decode_key, decode_updates, apply_update,
  key_to_buffer_ok,
}
use libstored.Synchronizer.StoreJournal.Message.Round.{conclude, opened}

pub bump_seq-seq :
    (j : StoreJournal)
    → ((bump_seq false j).seq ≡ j.seq) ⊎ ((bump_seq false j).seq ≡ (j.seq + 1) % 2 ^ 64)
unfolding bump_seq shift_window
bump_seq-seq j = ground arith

-- The result is the sequence number of the journal, which is `n` or the next one.
abbrev pub SeqFrom : ℕ → Decoded → Type 0
SeqFrom n (applied j seq) = (n ≤ seq) × (seq ≤ n + 1)
SeqFrom n (failed j rest) = Unit
SeqFrom n overrun = Unit
SeqFrom n out_of_fuel = Unit

module _ (sort : List ObjectInfo → List ObjectInfo) (record_all : Bool) where
  apply_update-seq :
      (key : ℕ) (bytes : Bytes) (j : StoreJournal)
      → (apply_update sort record_all key bytes j).seq ≡ j.seq
  unfolding apply_update changed
  apply_update-seq key bytes j = refl

  ends :
      (j : StoreJournal)
      → j.seq + 1 < 2 ^ 64
      → SeqFrom j.seq (applied (bump_seq false j) (bump_seq false j).seq)
  ends j h = elim (bump_seq-seq j) [
    | inl e ↦ (omega (arith, e), omega (arith, e))
    | inr e ↦ (omega (arith, e, h), omega (arith, e, h))
  ]

  SeqFrom-conclude :
      (fuel key : ℕ) (key_ok : Bool) (second : ℕ × Bytes × Bool) (j : StoreJournal)
      → SeqFrom j.seq (
          decode_updates sort fuel record_all
            (drop second.0 second.1)
            (apply_update sort record_all key (take second.0 second.1) j))
      → SeqFrom j.seq (conclude sort record_all fuel j key key_ok second)
  SeqFrom-conclude fuel key key_ok second j h =
      elim (Bool-cases (
        not (key_ok && second.2 && key_to_buffer_ok j key second.0)
        || ltb (length second.1) second.0)) [
          | inl e ↦ rw e tt
          | inr e ↦ elim (Bool-cases (ltb 0 second.0 && ltb (length j.buffer) (key + second.0))) [
            | inl p ↦ rw (e, p) tt
            | inr p ↦ rw (e, p) h
          ]
        ]

  pub decode_updates-SeqFrom :
      (fuel : ℕ) (bytes : Bytes) (j : StoreJournal)
      → j.seq + 1 < 2 ^ 64
      → SeqFrom j.seq (decode_updates sort fuel record_all bytes j)
  unfolding decode_updates
  decode_updates-SeqFrom zero [] j h = ends j h
  decode_updates-SeqFrom (suc fuel) [] j h = ends j h
  decode_updates-SeqFrom zero (b ∷ bs) j h = tt
  decode_updates-SeqFrom (suc fuel) (b ∷ bs) j h =
      let key = (decode_key j (b ∷ bs)).0 in
      let second = decode_key j (decode_key j (b ∷ bs)).1 in
      let same = apply_update-seq key (take second.0 second.1) j in
      subst (SeqFrom j.seq) (sym (opened sort record_all fuel (b ∷ bs) j (omega arith))) (
        SeqFrom-conclude fuel key (decode_key j (b ∷ bs)).2 second j (
          subst
            (λ n. SeqFrom n (
              decode_updates sort fuel record_all (drop second.0 second.1)
                (apply_update sort record_all key (take second.0 second.1) j)))
            same
            (decode_updates-SeqFrom fuel (drop second.0 second.1)
              (apply_update sort record_all key (take second.0 second.1) j)
              (omega (arith, h, same)))))
