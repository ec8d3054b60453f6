-- ===== src/Protocol/Crc8/Table.antt =====
-- crc8_table (src/protocol.cpp).
use libstored.Prelude.{ℕ, List, [], ◌∷◌}

unfoldable pub crc8_table : List ℕ
crc8_table =
    0x00 ∷ 0xa6 ∷ 0xea ∷ 0x4c ∷ 0x72 ∷ 0xd4 ∷ 0x98 ∷ 0x3e ∷ 0xe4 ∷ 0x42 ∷ 0x0e ∷ 0xa8 ∷ 0x96 ∷ 0x30
    ∷ 0x7c ∷ 0xda ∷ 0x6e ∷ 0xc8 ∷ 0x84 ∷ 0x22 ∷ 0x1c ∷ 0xba ∷ 0xf6 ∷ 0x50 ∷ 0x8a ∷ 0x2c ∷ 0x60
    ∷ 0xc6 ∷ 0xf8 ∷ 0x5e ∷ 0x12 ∷ 0xb4 ∷ 0xdc ∷ 0x7a ∷ 0x36 ∷ 0x90 ∷ 0xae ∷ 0x08 ∷ 0x44 ∷ 0xe2
    ∷ 0x38 ∷ 0x9e ∷ 0xd2 ∷ 0x74 ∷ 0x4a ∷ 0xec ∷ 0xa0 ∷ 0x06 ∷ 0xb2 ∷ 0x14 ∷ 0x58 ∷ 0xfe ∷ 0xc0
    ∷ 0x66 ∷ 0x2a ∷ 0x8c ∷ 0x56 ∷ 0xf0 ∷ 0xbc ∷ 0x1a ∷ 0x24 ∷ 0x82 ∷ 0xce ∷ 0x68 ∷ 0x1e ∷ 0xb8
    ∷ 0xf4 ∷ 0x52 ∷ 0x6c ∷ 0xca ∷ 0x86 ∷ 0x20 ∷ 0xfa ∷ 0x5c ∷ 0x10 ∷ 0xb6 ∷ 0x88 ∷ 0x2e ∷ 0x62
    ∷ 0xc4 ∷ 0x70 ∷ 0xd6 ∷ 0x9a ∷ 0x3c ∷ 0x02 ∷ 0xa4 ∷ 0xe8 ∷ 0x4e ∷ 0x94 ∷ 0x32 ∷ 0x7e ∷ 0xd8
    ∷ 0xe6 ∷ 0x40 ∷ 0x0c ∷ 0xaa ∷ 0xc2 ∷ 0x64 ∷ 0x28 ∷ 0x8e ∷ 0xb0 ∷ 0x16 ∷ 0x5a ∷ 0xfc ∷ 0x26
    ∷ 0x80 ∷ 0xcc ∷ 0x6a ∷ 0x54 ∷ 0xf2 ∷ 0xbe ∷ 0x18 ∷ 0xac ∷ 0x0a ∷ 0x46 ∷ 0xe0 ∷ 0xde ∷ 0x78
    ∷ 0x34 ∷ 0x92 ∷ 0x48 ∷ 0xee ∷ 0xa2 ∷ 0x04 ∷ 0x3a ∷ 0x9c ∷ 0xd0 ∷ 0x76 ∷ 0x3c ∷ 0x9a ∷ 0xd6
    ∷ 0x70 ∷ 0x4e ∷ 0xe8 ∷ 0xa4 ∷ 0x02 ∷ 0xd8 ∷ 0x7e ∷ 0x32 ∷ 0x94 ∷ 0xaa ∷ 0x0c ∷ 0x40 ∷ 0xe6
    ∷ 0x52 ∷ 0xf4 ∷ 0xb8 ∷ 0x1e ∷ 0x20 ∷ 0x86 ∷ 0xca ∷ 0x6c ∷ 0xb6 ∷ 0x10 ∷ 0x5c ∷ 0xfa ∷ 0xc4
    ∷ 0x62 ∷ 0x2e ∷ 0x88 ∷ 0xe0 ∷ 0x46 ∷ 0x0a ∷ 0xac ∷ 0x92 ∷ 0x34 ∷ 0x78 ∷ 0xde ∷ 0x04 ∷ 0xa2
    ∷ 0xee ∷ 0x48 ∷ 0x76 ∷ 0xd0 ∷ 0x9c ∷ 0x3a ∷ 0x8e ∷ 0x28 ∷ 0x64 ∷ 0xc2 ∷ 0xfc ∷ 0x5a ∷ 0x16
    ∷ 0xb0 ∷ 0x6a ∷ 0xcc ∷ 0x80 ∷ 0x26 ∷ 0x18 ∷ 0xbe ∷ 0xf2 ∷ 0x54 ∷ 0x22 ∷ 0x84 ∷ 0xc8 ∷ 0x6e
    ∷ 0x50 ∷ 0xf6 ∷ 0xba ∷ 0x1c ∷ 0xc6 ∷ 0x60 ∷ 0x2c ∷ 0x8a ∷ 0xb4 ∷ 0x12 ∷ 0x5e ∷ 0xf8 ∷ 0x4c
    ∷ 0xea ∷ 0xa6 ∷ 0x00 ∷ 0x3e ∷ 0x98 ∷ 0xd4 ∷ 0x72 ∷ 0xa8 ∷ 0x0e ∷ 0x42 ∷ 0xe4 ∷ 0xda ∷ 0x7c
    ∷ 0x30 ∷ 0x96 ∷ 0xfe ∷ 0x58 ∷ 0x14 ∷ 0xb2 ∷ 0x8c ∷ 0x2a ∷ 0x66 ∷ 0xc0 ∷ 0x1a ∷ 0xbc ∷ 0xf0
    ∷ 0x56 ∷ 0x68 ∷ 0xce ∷ 0x82 ∷ 0x24 ∷ 0x90 ∷ 0x36 ∷ 0x7a ∷ 0xdc ∷ 0xe2 ∷ 0x44 ∷ 0x08 ∷ 0xae
    ∷ 0x74 ∷ 0xd2 ∷ 0x9e ∷ 0x38 ∷ 0x06 ∷ 0xa0 ∷ 0xec ∷ 0x4a ∷ []
