-- ===== src/Protocol/Buffer.antt =====
-- BufferLayer (src/protocol.cpp): partial encodes, collected into buffers of limited size.
pub mod Carry
use libstored.Prelude.{ℕ, zero, suc, Bool, true, false, ◌||◌, List, [], ◌∷◌, ◌++◌}
use libstored.Prelude.{◌==◌, if◌then◌else◌, ◌-◌, ltb, take, drop, length, is_empty, size_max}
use libstored.Protocol.{Bytes, Chunk}
use libstored.Protocol.Layer.{Layer}

-- The constructor: the limit of the buffer, where 0 stands for no limit.
unfoldable pub limit : ℕ → ℕ
limit size = if size == 0 then size_max else size

-- What is forwarded: the part of the message, behind what the buffer holds if there is any.
unfoldable pub forwarded : Bytes → Bytes → Bytes
forwarded held part = if is_empty held then part else held ++ part

-- The loop of `encode`, on fuel: `remaining`, the buffer, what is left to encode, and the calls.
unfoldable pub fill : ℕ → ℕ → ℕ → Bytes → Bytes → ℕ × Bytes × Bytes × List Chunk
unfolding forwarded
fill zero size remaining held buffer = (remaining, held, buffer, [])
fill (suc fuel) size remaining held buffer =
    let (remaining', held', rest, more) = fill fuel size size [] (drop remaining buffer) in
    if ltb remaining (length buffer)
    then (remaining', held', rest, (forwarded held (take remaining buffer), false) ∷ more)
    else (remaining, held, buffer, [])

-- What `encode` does with the rest that fits.
unfoldable pub finish : ℕ → Bytes → Bytes → Bool → Bytes × List Chunk
unfolding forwarded
finish remaining held buffer last =
    if last || length buffer == remaining
    then ([], (forwarded held buffer, last) ∷ [])
    else (held ++ buffer, [])

-- `encode`, with the buffer before it and after it. A round takes a byte at least.
unfoldable pub encode : ℕ → Bytes → Bytes → Bool → Bytes × List Chunk
encode size held buffer last =
    let (remaining, held', rest, out) =
      fill (length buffer) size (size - length held) held buffer in
    let (held'', more) = finish remaining held' rest last in (held'', out ++ more)

-- `reset`, but for the layer below.
unfoldable pub reset : Bytes → Bytes
reset held = []

-- `decode` is that of ProtocolLayer, which hands the buffer on.
abbrev pub buffer_layer : ℕ → Layer
buffer_layer size = record {
  Sender = Bytes;
  Receiver = Unit {0};
  encode = encode size;
  decode = λ r b. (r, b ∷ []);
}
