-- ===== src/Protocol/Crc16/Table.antt =====
-- crc16_table (src/protocol.cpp).
use libstored.Prelude.{ℕ, List, [], ◌∷◌}

unfoldable pub crc16_table : List ℕ
crc16_table =
    0x0000 ∷ 0xbaad ∷ 0xcff7 ∷ 0x755a ∷ 0x2543 ∷ 0x9fee ∷ 0xeab4 ∷ 0x5019 ∷ 0x4a86 ∷ 0xf02b ∷ 0x8571
    ∷ 0x3fdc ∷ 0x6fc5 ∷ 0xd568 ∷ 0xa032 ∷ 0x1a9f ∷ 0x950c ∷ 0x2fa1 ∷ 0x5afb ∷ 0xe056 ∷ 0xb04f
    ∷ 0x0ae2 ∷ 0x7fb8 ∷ 0xc515 ∷ 0xdf8a ∷ 0x6527 ∷ 0x107d ∷ 0xaad0 ∷ 0xfac9 ∷ 0x4064 ∷ 0x353e
    ∷ 0x8f93 ∷ 0x90b5 ∷ 0x2a18 ∷ 0x5f42 ∷ 0xe5ef ∷ 0xb5f6 ∷ 0x0f5b ∷ 0x7a01 ∷ 0xc0ac ∷ 0xda33
    ∷ 0x609e ∷ 0x15c4 ∷ 0xaf69 ∷ 0xff70 ∷ 0x45dd ∷ 0x3087 ∷ 0x8a2a ∷ 0x05b9 ∷ 0xbf14 ∷ 0xca4e
    ∷ 0x70e3 ∷ 0x20fa ∷ 0x9a57 ∷ 0xef0d ∷ 0x55a0 ∷ 0x4f3f ∷ 0xf592 ∷ 0x80c8 ∷ 0x3a65 ∷ 0x6a7c
    ∷ 0xd0d1 ∷ 0xa58b ∷ 0x1f26 ∷ 0x9bc7 ∷ 0x216a ∷ 0x5430 ∷ 0xee9d ∷ 0xbe84 ∷ 0x0429 ∷ 0x7173
    ∷ 0xcbde ∷ 0xd141 ∷ 0x6bec ∷ 0x1eb6 ∷ 0xa41b ∷ 0xf402 ∷ 0x4eaf ∷ 0x3bf5 ∷ 0x8158 ∷ 0x0ecb
    ∷ 0xb466 ∷ 0xc13c ∷ 0x7b91 ∷ 0x2b88 ∷ 0x9125 ∷ 0xe47f ∷ 0x5ed2 ∷ 0x444d ∷ 0xfee0 ∷ 0x8bba
    ∷ 0x3117 ∷ 0x610e ∷ 0xdba3 ∷ 0xaef9 ∷ 0x1454 ∷ 0x0b72 ∷ 0xb1df ∷ 0xc485 ∷ 0x7e28 ∷ 0x2e31
    ∷ 0x949c ∷ 0xe1c6 ∷ 0x5b6b ∷ 0x41f4 ∷ 0xfb59 ∷ 0x8e03 ∷ 0x34ae ∷ 0x64b7 ∷ 0xde1a ∷ 0xab40
    ∷ 0x11ed ∷ 0x9e7e ∷ 0x24d3 ∷ 0x5189 ∷ 0xeb24 ∷ 0xbb3d ∷ 0x0190 ∷ 0x74ca ∷ 0xce67 ∷ 0xd4f8
    ∷ 0x6e55 ∷ 0x1b0f ∷ 0xa1a2 ∷ 0xf1bb ∷ 0x4b16 ∷ 0x3e4c ∷ 0x84e1 ∷ 0x8d23 ∷ 0x378e ∷ 0x42d4
    ∷ 0xf879 ∷ 0xa860 ∷ 0x12cd ∷ 0x6797 ∷ 0xdd3a ∷ 0xc7a5 ∷ 0x7d08 ∷ 0x0852 ∷ 0xb2ff ∷ 0xe2e6
    ∷ 0x584b ∷ 0x2d11 ∷ 0x97bc ∷ 0x182f ∷ 0xa282 ∷ 0xd7d8 ∷ 0x6d75 ∷ 0x3d6c ∷ 0x87c1 ∷ 0xf29b
    ∷ 0x4836 ∷ 0x52a9 ∷ 0xe804 ∷ 0x9d5e ∷ 0x27f3 ∷ 0x77ea ∷ 0xcd47 ∷ 0xb81d ∷ 0x02b0 ∷ 0x1d96
    ∷ 0xa73b ∷ 0xd261 ∷ 0x68cc ∷ 0x38d5 ∷ 0x8278 ∷ 0xf722 ∷ 0x4d8f ∷ 0x5710 ∷ 0xedbd ∷ 0x98e7
    ∷ 0x224a ∷ 0x7253 ∷ 0xc8fe ∷ 0xbda4 ∷ 0x0709 ∷ 0x889a ∷ 0x3237 ∷ 0x476d ∷ 0xfdc0 ∷ 0xadd9
    ∷ 0x1774 ∷ 0x622e ∷ 0xd883 ∷ 0xc21c ∷ 0x78b1 ∷ 0x0deb ∷ 0xb746 ∷ 0xe75f ∷ 0x5df2 ∷ 0x28a8
    ∷ 0x9205 ∷ 0x16e4 ∷ 0xac49 ∷ 0xd913 ∷ 0x63be ∷ 0x33a7 ∷ 0x890a ∷ 0xfc50 ∷ 0x46fd ∷ 0x5c62
    ∷ 0xe6cf ∷ 0x9395 ∷ 0x2938 ∷ 0x7921 ∷ 0xc38c ∷ 0xb6d6 ∷ 0x0c7b ∷ 0x83e8 ∷ 0x3945 ∷ 0x4c1f
    ∷ 0xf6b2 ∷ 0xa6ab ∷ 0x1c06 ∷ 0x695c ∷ 0xd3f1 ∷ 0xc96e ∷ 0x73c3 ∷ 0x0699 ∷ 0xbc34 ∷ 0xec2d
    ∷ 0x5680 ∷ 0x23da ∷ 0x9977 ∷ 0x8651 ∷ 0x3cfc ∷ 0x49a6 ∷ 0xf30b ∷ 0xa312 ∷ 0x19bf ∷ 0x6ce5
    ∷ 0xd648 ∷ 0xccd7 ∷ 0x767a ∷ 0x0320 ∷ 0xb98d ∷ 0xe994 ∷ 0x5339 ∷ 0x2663 ∷ 0x9cce ∷ 0x135d
    ∷ 0xa9f0 ∷ 0xdcaa ∷ 0x6607 ∷ 0x361e ∷ 0x8cb3 ∷ 0xf9e9 ∷ 0x4344 ∷ 0x59db ∷ 0xe376 ∷ 0x962c
    ∷ 0x2c81 ∷ 0x7c98 ∷ 0xc635 ∷ 0xb36f ∷ 0x09c2 ∷ []
