-- ===== src/Crc.antt =====
-- The CRC-32 of src/VIA_Protocol.cpp (crc32Update), by shifts and a mask.
use via_arduino.Base.{ℕ, zero, suc, ◌/◌, List, foldl, bit_and, bit_xor, sub32}

-- One round of the bit loop: the mask -(int32_t)(crc & 1) is all ones when the low bit is set.
unfoldable pub crc32_bit : ℕ → ℕ
crc32_bit crc = bit_xor (crc / 2) (bit_and 0xEDB88320 (sub32 0 (bit_and crc 1)))

unfoldable pub crc32_rounds : ℕ → ℕ → ℕ
crc32_rounds zero crc = crc
crc32_rounds (suc n) crc = crc32_rounds n (crc32_bit crc)

unfoldable pub crc32_update : ℕ → ℕ → ℕ
unfolding crc32_bit crc32_rounds
crc32_update crc value = crc32_rounds 8 (bit_xor crc value)

-- for (i = 0; i < n; ++i) crc = crc32Update(crc, data[i]);
unfoldable pub crc32_loop : ℕ → List ℕ → ℕ
unfolding crc32_update
crc32_loop crc bytes = foldl crc32_update crc bytes
