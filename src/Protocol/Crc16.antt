-- ===== src/Protocol/Crc16.antt =====
-- Crc16Layer (src/protocol.cpp): a checksum of two bytes behind each frame.
pub mod Table
pub mod Detect
pub mod Carry
use libstored.Prelude.{ℕ, Bool, true, false, ◌||◌, List, [], ◌∷◌, ◌++◌, ◌==◌, if◌then◌else◌}
use libstored.Prelude.{◌-◌, ◌*◌, ◌/◌, ◌%◌, bit_xor, bit_or, ltb, leb, get_or, take, length}
use libstored.Protocol.{Bytes, Chunk}
use libstored.Protocol.Layer.{Layer}
use Table.{crc16_table}

abbrev pub init : ℕ
init = 0xffff

-- `input` is a `uint8_t` and `crc` a `uint16_t`; `crc << 8` is cut to sixteen bits.
unfoldable pub compute : ℕ → ℕ → ℕ
compute input crc = bit_xor (get_or crc16_table (bit_xor input (crc / 256)) 0) (crc * 256 % 65536)

-- The loops of `encode` and of `decode` over a buffer.
unfoldable pub update : ℕ → Bytes → ℕ
update crc [] = crc
update crc (b ∷ bs) = update (compute b crc) bs

-- The new `m_crc`, and the calls of the layer below.
unfoldable pub encode : ℕ → Bytes → Bool → ℕ × List Chunk
encode crc buffer last =
    let crc' = update crc buffer in
    if last
    then (init, (buffer, false) ∷ (crc' / 256 ∷ crc' % 256 ∷ [], true) ∷ [])
    else (crc', (buffer, false) ∷ [])

-- The checksum that a frame of `n` bytes ends in, `buffer[n - 2]` being the high byte.
unfoldable pub received : Bytes → ℕ → ℕ
received buffer n = bit_or (get_or buffer (n - 2) 0 * 256 % 65536) (get_or buffer (n - 1) 0)

-- What `decode` passes to the layer above: nothing for a short or an invalid frame.
unfoldable pub decode : Bytes → List Bytes
decode buffer =
    let payload = take (length buffer - 2) buffer in
    if ltb (length buffer) 2
    then []
    else if update init payload == received buffer (length buffer)
    then payload ∷ []
    else []

-- `reset`, but for the layer below.
unfoldable pub reset : ℕ → ℕ
reset crc = init

-- `lower` is the MTU of the layer below.
unfoldable pub mtu : ℕ → ℕ
mtu lower = if lower == 0 || ltb 256 lower then 256 else if leb lower 3 then 1 else lower - 2

abbrev pub crc16_layer : Layer
crc16_layer = record {
  Sender = ℕ;
  Receiver = Unit {0};
  encode = encode;
  decode = λ r b. (r, decode b);
}
