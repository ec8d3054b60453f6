-- ===== src/Synchronizer/Connection/Commands.antt =====
-- decode of SyncConnection (src/synchronizer.cpp), by the command of a message.
use libstored.Prelude.{ℕ, ◌≡◌, refl, Bool, List, ◌∷◌}
use libstored.Protocol.{Bytes}
use libstored.Synchronizer.Journal.{ObjectInfo}
use libstored.Synchronizer.Connection.{
  SyncConnection, Registry, hello, welcome, update, command_byte,
}
use libstored.Synchronizer.Connection.Messages.{Heap}
use libstored.Synchronizer.Connection.Receive.{decode, decode_hello, decode_welcome, decode_update}
use libstored.Synchronizer.Connection.Codec.{command_of-command_byte}

module _ (sort : List ObjectInfo → List ObjectInfo) (elsewhere : ℕ → Bool) (fuel : ℕ)
    (reg : Registry) (body : Bytes) (c : SyncConnection) (heap : Heap) where
  pub decode-hello :
      decode reg sort elsewhere fuel (command_byte reg.little hello ∷ body) c heap
      ≡ decode_hello reg body c heap
  unfolding decode
  decode-hello = rw (decode, command_of-command_byte reg.little hello) refl

  pub decode-welcome :
      decode reg sort elsewhere fuel (command_byte reg.little welcome ∷ body) c heap
      ≡ decode_welcome reg body c heap
  unfolding decode
  decode-welcome = rw (decode, command_of-command_byte reg.little welcome) refl

  pub decode-update :
      decode reg sort elsewhere fuel (command_byte reg.little update ∷ body) c heap
      ≡ decode_update reg sort elsewhere body c heap
  unfolding decode
  decode-update = rw (decode, command_of-command_byte reg.little update) refl
