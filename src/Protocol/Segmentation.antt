-- ===== src/Protocol/Segmentation.antt =====
-- SegmentationLayer (src/protocol.cpp): messages cut into frames of limited size.
pub mod Decode
pub mod Encode
pub mod Frames
pub mod Carry
use libstored.Prelude.{ℕ, zero, suc, Bool, true, false, not, ◌&&◌, ◌||◌, List, [], ◌∷◌, ◌++◌}
use libstored.Prelude.{
  ◌==◌, if◌then◌else◌, ◌+◌, ◌-◌, ◌*◌, ltb, min, take, drop, length, get_or, is_empty,
}
use libstored.Prelude.{size_max, sub_size}
use libstored.Protocol.{Bytes, Chunk}
use libstored.Protocol.Layer.{Layer}

abbrev pub continue_marker : ℕ
continue_marker = b'C'

abbrev pub end_marker : ℕ
end_marker = b'E'

-- `lowerMtu`: `own` is the MTU of the constructor and `lower` that of the layer below; 0 stands
-- for no limit.
unfoldable pub lower_mtu : ℕ → ℕ → ℕ
lower_mtu own lower = if own == 0 then lower else if lower == 0 then own else min own lower

-- The first lines of `encode`: the size of a frame.
unfoldable pub frame_size : ℕ → ℕ
frame_size mtu = if mtu == 0 then size_max else if mtu == 1 then 2 else mtu

-- One round of the loop of `encode`, with `m_encoded` and what is left of the buffer.
unfoldable pub encode_round : ℕ → ℕ → Bytes → ℕ × Bytes × List Chunk
encode_round mtu encoded buffer =
    let remaining = sub_size (sub_size mtu encoded) 1 in
    let chunk = min (length buffer) remaining in
    let rest = drop chunk buffer in
    let part = if chunk == 0 then [] else (take chunk buffer, false) ∷ [] in
    if chunk == remaining && not (is_empty rest)
    then (0, rest, part ++ ((continue_marker ∷ [], true) ∷ []))
    else (encoded + chunk, rest, part)

-- The loop, on fuel: the buffer that is left is empty unless the fuel ran out.
unfoldable pub encode_loop : ℕ → ℕ → ℕ → Bytes → ℕ × Bytes × List Chunk
encode_loop zero mtu encoded buffer = (encoded, buffer, [])
encode_loop (suc fuel) mtu encoded [] = (encoded, [], [])
encode_loop (suc fuel) mtu encoded (b ∷ buffer) =
    let (encoded1, rest, out) = encode_round mtu encoded (b ∷ buffer) in
    let (encoded2, left, more) = encode_loop fuel mtu encoded1 rest in (encoded2, left, out ++ more)

-- Two rounds take a byte at least.
unfoldable pub enough : Bytes → ℕ
enough buffer = 2 * length buffer + 2

unfoldable pub encode : ℕ → ℕ → ℕ → Bytes → Bool → ℕ × List Chunk
unfolding enough
encode own lower encoded buffer last =
    let (encoded', left, out) =
      encode_loop (enough buffer) (frame_size (lower_mtu own lower)) encoded buffer in
    if last then (0, out ++ ((end_marker ∷ [], true) ∷ [])) else (encoded', out)

-- `m_decode`, and what goes to the layer above.
unfoldable pub decode : Bytes → Bytes → Bytes × List Bytes
decode collected buffer =
    let len = length buffer in
    let marker = get_or buffer (len - 1) 0 in
    let saved = if ltb 1 len then collected ++ take (len - 1) buffer else collected in
    if len == 0
    then (collected, [])
    else if not (is_empty collected) || not (marker == end_marker)
    then (if marker == end_marker then ([], saved ∷ []) else (saved, []))
    else (collected, take (len - 1) buffer ∷ [])

-- Any size can be encoded.
unfoldable pub mtu : ℕ
mtu = 0

-- `reset`, but for the layer below: `m_decode` and `m_encoded`.
unfoldable pub reset : Bytes → ℕ → Bytes × ℕ
reset collected encoded = ([], 0)

abbrev pub segmentation_layer : ℕ → ℕ → Layer
segmentation_layer own lower = record {
  Sender = ℕ;
  Receiver = Bytes;
  encode = encode own lower;
  decode = decode;
}
