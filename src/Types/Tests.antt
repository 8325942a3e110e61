-- ===== src/Types/Tests.antt =====
-- Tests and witnesses of the CRC.
use mathlib.Core.List.{foldl}
use nic_ob_fw.Common.{ℕ, ◌≡◌, refl, List, [], ◌∷◌, bit_xor, take, arith}
use nic_ob_fw.Types.Crc.{crc32_byte, crc32_compute, crc32_compute-foldl}

-- The check value of CRC-32.
abbrev digits_1_to_9 : List ℕ
digits_1_to_9 = b'1' ∷ b'2' ∷ b'3' ∷ b'4' ∷ b'5' ∷ b'6' ∷ b'7' ∷ b'8' ∷ b'9' ∷ []

crc32_check_value : crc32_compute digits_1_to_9 9 ≡ 0xcbf4_3926
unfolding crc32_compute crc32_byte
crc32_check_value = refl

crc32_compute-foldl_example :
    crc32_compute digits_1_to_9 9
    ≡ bit_xor (foldl crc32_byte 0xffff_ffff (take 9 digits_1_to_9)) 0xffff_ffff
crc32_compute-foldl_example = crc32_compute-foldl digits_1_to_9 9 (omega arith) (omega arith)
