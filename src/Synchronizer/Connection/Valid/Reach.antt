-- ===== src/Synchronizer/Connection/Valid/Reach.antt =====
-- What a SyncConnection (src/synchronizer.cpp) can get to.
use libstored.Prelude.{ℕ, ◌≡◌, Bool, List}
use mathlib.Core.Path.{subst}
use libstored.Protocol.{Bytes}
use libstored.Synchronizer.Journal.{ObjectInfo}
use libstored.Synchronizer.Connection.{SyncConnection, Registry, Outcome, running, connected}
use libstored.Synchronizer.Connection.Drop.{drop, bye_all}
use libstored.Synchronizer.Connection.Messages.{Heap, source, process, reset}
use libstored.Synchronizer.Connection.Receive.{decode, decode_bye}
use libstored.Synchronizer.Connection.Valid.{IsValid, connected-IsValid}
use libstored.Synchronizer.Connection.Valid.Erase.{drop-IsValid, bye_all-IsValid}
use libstored.Synchronizer.Connection.Valid.Steps.{IsSafe, decode_bye-IsSafe, reset-IsSafe}
use libstored.Synchronizer.Connection.Valid.Source.{source-IsValid}
use libstored.Synchronizer.Connection.Valid.Decode.{Keeps, process-IsValid, decode-Keeps}

module _ (reg : Registry) (sort : List ObjectInfo → List ObjectInfo) where
  -- The connections that the calls of the program and the messages of the other party lead to. The
  -- journals, and what other connections synchronize, can be anything at each step.
  pub data Reach : SyncConnection → Type 0 where
    start : Reach connected
    asked : (j : ℕ) (c c' : SyncConnection) → Reach c → source reg j c ≡ running c' → Reach c'
    dropped : (j : ℕ) (c : SyncConnection) → Reach c → Reach (drop reg j c)
    parted : (c : SyncConnection) → Reach c → Reach (bye_all reg c)
    processed :
        (j : ℕ) (c : SyncConnection) (heap : Heap) → Reach c → Reach (process reg j c heap).1
    restarted :
        (fuel : ℕ) (c c' : SyncConnection) → Reach c → reset reg fuel c ≡ running c' → Reach c'
    received :
        (elsewhere : ℕ → Bool) (fuel : ℕ) (bytes : Bytes) (c c' : SyncConnection)
        (heap heap' : Heap)
        → Reach c
        → decode reg sort elsewhere fuel bytes c heap ≡ running (c', heap')
        → Reach c'

  IsSafe-running :
      (o : Outcome SyncConnection) (c : SyncConnection) → IsSafe o → o ≡ running c → IsValid c
  IsSafe-running o c h e = subst IsSafe e h

  Keeps-running :
      (o : Outcome (SyncConnection × Heap)) (c : SyncConnection) (heap : Heap)
      → Keeps o
      → o ≡ running (c, heap)
      → IsValid c
  Keeps-running o c heap h e = subst Keeps e h

  -- Every connection that can be reached is valid: its maps are in order, no id is 0, and each store
  -- of which it is the source has an id.
  pub reach-IsValid : (c : SyncConnection) → Reach c → IsValid c
  reach-IsValid _ start = connected-IsValid
  reach-IsValid _ (asked j c c' r e) = source-IsValid reg j c c' (reach-IsValid c r) e
  reach-IsValid _ (dropped j c r) = drop-IsValid reg j c (reach-IsValid c r)
  reach-IsValid _ (parted c r) = bye_all-IsValid reg c (reach-IsValid c r)
  reach-IsValid _ (processed j c heap r) = process-IsValid reg j c heap (reach-IsValid c r)
  reach-IsValid _ (restarted fuel c c' r e) =
      IsSafe-running (reset reg fuel c) c' (reset-IsSafe reg fuel c (reach-IsValid c r)) e
  reach-IsValid _ (received elsewhere fuel bytes c c' heap heap' r e) =
      Keeps-running (decode reg sort elsewhere fuel bytes c heap) c' heap'
        (decode-Keeps reg sort elsewhere fuel bytes c heap (reach-IsValid c r)) e

  -- Whatever a Bye has that reaches a connection, and whatever rounds the loop of `helloAgain` gets:
  -- the assertion in `helloAgain`, that the store has an id, does not fail, in whatever way the
  -- connection has come to be.
  pub reach-decode_bye :
      (fuel : ℕ) (buffer : Bytes) (c : SyncConnection)
      → Reach c
      → IsSafe (decode_bye reg fuel buffer c)
  reach-decode_bye fuel buffer c r = decode_bye-IsSafe reg fuel buffer c (reach-IsValid c r)
