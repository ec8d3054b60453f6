-- ===== src/Synchronizer/Tests/MessageRuns.antt =====
-- Runs of the messages of StoreJournal (src/synchronizer.cpp).
use libstored.Prelude.{ℕ, zero, suc, ◌≡◌, refl, ap, true, [], ◌∷◌, ◌++◌, arith, length, inl}
use libstored.Protocol.{Bytes}
use libstored.Synchronizer.Journal.Halves.{halves}
use libstored.Synchronizer.Journal.ShortSeq.{to_long}
use libstored.Synchronizer.StoreJournal.{StoreJournal, initial, iterate_changed}
use libstored.Synchronizer.StoreJournal.Message.{decode_updates, overrun}
use libstored.Synchronizer.StoreJournal.Message.Numbers.{key_bytes}
use libstored.Synchronizer.StoreJournal.Message.Updates.{IsStore, AllInStore}
use libstored.Synchronizer.StoreJournal.Message.Receive.{
  SameStore, Receives, decode_updates-encode_updates,
}
use libstored.Synchronizer.StoreJournal.Message.Terminates.{has_result, decode_updates-has_result}
use libstored.Synchronizer.StoreJournal.Message.Limits.{decode_updates_overrun}
use libstored.Synchronizer.Tests.Sorting.{insertion_sort}

-- A store with a change of two bytes, and one of the same kind without.
abbrev sender : StoreJournal
sender = record {
  little = true;
  buffer = 10 ∷ 11 ∷ 12 ∷ 13 ∷ [];
  key_size = 1;
  seq = 5;
  seq_lower = 0;
  partial_seq = true;
  changes = record { key = 1; len = 2; seq = 5; highest = 5 } ∷ [];
}

abbrev receiver : StoreJournal
receiver = record sender { buffer = 0 ∷ 0 ∷ 0 ∷ 0 ∷ []; seq = 1; changes = [] }

sender-IsStore : IsStore sender
sender-IsStore = record { typed = inl refl; size = ground arith }

same_store : SameStore sender receiver
same_store = record { little = refl; key_size = refl; size = refl }

in_store : AllInStore sender.buffer (iterate_changed 5 sender)
unfolding iterate_changed halves to_long
in_store = ground arith

updates_example :
    (bytes : Bytes) × (dst' : StoreJournal) × Receives insertion_sort true sender sender-IsStore 5
      receiver bytes dst'
updates_example =
    decode_updates-encode_updates insertion_sort true sender sender-IsStore 5 receiver in_store
      same_store

has_result_example :
    has_result (decode_updates insertion_sort 3 true (1 ∷ 200 ∷ 3 ∷ []) receiver) ≡ true
has_result_example =
    decode_updates-has_result insertion_sort 3 true (1 ∷ 200 ∷ 3 ∷ []) receiver (ground arith)

-- Large stores.
unfoldable zeros : ℕ → Bytes
zeros zero = []
zeros (suc n) = 0 ∷ zeros n

length-zeros : (n : ℕ) → length (zeros n) ≡ n
unfolding zeros
length-zeros zero = refl
length-zeros (suc n) = ap suc (length-zeros n)

abbrev large : StoreJournal
large = initial true (zeros 16777216)

large_size : (large.key_size ≡ 4) × (length large.buffer ≡ 16777216)
unfolding initial
large_size = (rw (length-zeros 16777216) refl, length-zeros 16777216)

-- An update of one byte at the key 2^32 - 1.
overrun_example :
    decode_updates insertion_sort 2 true
      (key_bytes large.little large.key_size 4294967295
        ++ (key_bytes large.little large.key_size 1 ++ ((7 ∷ []) ++ [])))
      large
    ≡ overrun
overrun_example =
    decode_updates_overrun insertion_sort true 1 large large_size.0 (omega (arith, large_size.1))
      4294967295 (7 ∷ []) (ground arith) (ground arith) (ground arith) (omega (arith, large_size.1))
      []
