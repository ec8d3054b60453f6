-- ===== src/Protocol.antt =====
-- protocol.h and protocol.cpp: the protocol layers. This file has what all layers share: the
-- calls that a layer makes of the layer below, and the link that joins two stacks.
pub mod Layer
pub mod Loopback
pub mod Buffer
pub mod Parts
pub mod Chain
pub mod Stacks
pub mod Tests
pub mod AsciiEscape
pub mod Terminal
pub mod Segmentation
pub mod Arq
pub mod DebugArq
pub mod Crc8
pub mod Crc16
use libstored.Prelude.{ℕ, Bool, true, false, List, [], ◌∷◌, ◌++◌}

abbrev pub Bytes : Type 0
Bytes = List ℕ

-- One call `encode(buffer, len, last)`: the bytes, and the flag `last`.
abbrev pub Chunk : Type 0
Chunk = Bytes × Bool

-- The frames that a sequence of calls completes, where `acc` is what was already written of the
-- first of them. What is left behind the last call with `last` set is no frame yet.
unfoldable pub frames : Bytes → List Chunk → List Bytes
frames acc [] = []
frames acc ((b, true) ∷ cs) = (acc ++ b) ∷ frames [] cs
frames acc ((b, false) ∷ cs) = frames (acc ++ b) cs

-- The bytes behind the last call with `last` set.
unfoldable pub pending : Bytes → List Chunk → Bytes
pending acc [] = acc
pending acc ((b, true) ∷ cs) = pending [] cs
pending acc ((b, false) ∷ cs) = pending (acc ++ b) cs
