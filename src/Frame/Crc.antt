-- ===== src/Frame/Crc.antt =====
-- tn_frame_crc of src/mac/frame.c: CRC-16/CCITT-FALSE by a table of nibbles.
use treenity.Prelude.{ℕ, ◌*◌, ◌/◌, List, [], ◌∷◌, get_or, bit_xor, bit_and}
use treenity.Prelude.Word.{u16}

abbrev pub crc16_nibble : List ℕ
crc16_nibble =
    0x0000 ∷ 0x1021 ∷ 0x2042 ∷ 0x3063 ∷ 0x4084 ∷ 0x50A5 ∷ 0x60C6 ∷ 0x70E7 ∷ 0x8108 ∷ 0x9129 ∷ 0xA14A
    ∷ 0xB16B ∷ 0xC18C ∷ 0xD1AD ∷ 0xE1CE ∷ 0xF1EF ∷ []

unfoldable pub crc_entry : ℕ → ℕ
crc_entry i = get_or crc16_nibble i 0

-- One of the two statements of the loop's body, for a nibble of the byte.
unfoldable pub crc_nibble : ℕ → ℕ → ℕ
crc_nibble crc nibble =
    u16 (bit_xor (crc * 16) (crc_entry (bit_and (bit_xor (crc / 4096) nibble) 15)))

unfoldable pub crc_byte : ℕ → ℕ → ℕ
crc_byte crc b = crc_nibble (crc_nibble crc (b / 16)) (bit_and b 15)

unfoldable pub crc_loop : ℕ → List ℕ → ℕ
crc_loop crc [] = crc
crc_loop crc (b ∷ rest) = crc_loop (crc_byte crc b) rest

unfoldable pub frame_crc : List ℕ → ℕ
unfolding crc_loop crc_byte crc_nibble crc_entry
frame_crc = crc_loop 0xFFFF
