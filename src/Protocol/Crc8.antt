-- ===== src/Protocol/Crc8.antt =====
-- Crc8Layer (src/protocol.cpp): a checksum byte behind each frame.
pub mod Table
pub mod Polynomial
pub mod Detect
pub mod Carry
use libstored.Prelude.{ℕ, Bool, true, false, ◌||◌, List, [], ◌∷◌, ◌++◌, ◌==◌, if◌then◌else◌}
use libstored.Prelude.{◌-◌, ◌%◌, bit_xor, ltb, leb, get_or, take, length}
use libstored.Protocol.{Bytes, Chunk}
use libstored.Protocol.Layer.{Layer}
use Table.{crc8_table}

-- `init`, the value that a checksum starts from.
abbrev pub init : ℕ
init = 0xff

-- `(uint8_t)(input ^ crc)` is the index into the table.
unfoldable pub compute : ℕ → ℕ → ℕ
compute input crc = get_or crc8_table (bit_xor input crc % 256) 0

-- The loop of `encode` over the buffer, from the checksum so far.
unfoldable pub update : ℕ → Bytes → ℕ
update crc [] = crc
update crc (b ∷ bs) = update (compute b crc) bs

-- The loop of `decode`, which gives `compute` its arguments the other way round.
unfoldable pub check : ℕ → Bytes → ℕ
check crc [] = crc
check crc (b ∷ bs) = check (compute crc b) bs

-- The new `m_crc`, and the calls of the layer below.
unfoldable pub encode : ℕ → Bytes → Bool → ℕ × List Chunk
encode crc buffer last =
    let crc' = update crc buffer in
    if last then (init, (buffer, false) ∷ (crc' ∷ [], true) ∷ []) else (crc', (buffer, false) ∷ [])

-- What `decode` passes to the layer above: nothing for an empty or an invalid frame.
unfoldable pub decode : Bytes → List Bytes
decode buffer =
    let payload = take (length buffer - 1) buffer in
    if length buffer == 0
    then []
    else if check init payload == get_or buffer (length buffer - 1) 0
    then payload ∷ []
    else []

-- `reset`, but for the layer below.
unfoldable pub reset : ℕ → ℕ
reset crc = init

-- `lower` is the MTU of the layer below.
unfoldable pub mtu : ℕ → ℕ
mtu lower = if lower == 0 || ltb 256 lower then 256 else if leb lower 2 then 1 else lower - 1

abbrev pub crc8_layer : Layer
crc8_layer = record {
  Sender = ℕ;
  Receiver = Unit {0};
  encode = encode;
  decode = λ r b. (r, decode b);
}
