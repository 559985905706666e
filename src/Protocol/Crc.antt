-- ===== src/Protocol/Crc.antt =====
-- The CRC-16 of include/lib/ykb_protocol.h. A byte is a number below 256, a pointer with a length
-- is the list of the bytes, and NULL is the empty list: both leave the sum as it was.
use ykb_firmware.Base.{
  ℕ, zero, suc, ◌/◌, ◌%◌, ◌^◌, ◌==◌, List, [], ◌∷◌, if◌then◌else◌, bit_and, bit_xor,
}

abbrev pub crc_polynomial : ℕ
crc_polynomial = 0xA001

-- One round of the loop over the bits.
pub crc16_bit : ℕ → ℕ
crc16_bit crc = if bit_and crc 1 == 0 then crc / 2 else bit_xor (crc / 2) crc_polynomial % 2 ^ 16

pub crc16_bits : ℕ → ℕ → ℕ
crc16_bits zero crc = crc
crc16_bits (suc rounds) crc = crc16_bits rounds (crc16_bit crc)

unfoldable pub crc16_update : ℕ → List ℕ → ℕ
unfolding crc16_bits crc16_bit
crc16_update crc [] = crc
crc16_update crc (b ∷ bs) = crc16_update (crc16_bits 8 (bit_xor crc b)) bs

unfoldable pub crc16 : List ℕ → ℕ
unfolding crc16_update
crc16 bs = crc16_update 0xFFFF bs
