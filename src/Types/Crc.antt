-- ===== src/Types/Crc.antt =====
-- The CRC-32 of components/common/include/common_types.h. `size_t` has 32 bits on the ESP32.
use mathlib.Core.List.{foldl}
use nic_ob_fw.Common.{
  ℕ, ◌+◌, ◌-◌, ◌%◌, ◌^◌, ◌≤◌, ◌<◌, ◌≡◌, refl, ap, ◌∙◌, List, bit_and, bit_xor, ◌>>>◌, get_or,
  length, take, for_loop, for_range-foldl, unrolled,
}

-- `(crc >> 1) ^ (0xEDB88320U & -(crc & 1U))`, one of the eight lines.
crc32_bit : ℕ → ℕ
crc32_bit crc = bit_xor (crc >>> 1) (bit_and 0xedb8_8320 ((2 ^ 32 - bit_and crc 1) % 2 ^ 32))

unfoldable pub crc32_byte : ℕ → ℕ → ℕ
unfolding crc32_bit
crc32_byte crc byte =
    let crc0 = bit_xor crc byte in
    let crc1 = crc32_bit crc0 in
    let crc2 = crc32_bit crc1 in
    let crc3 = crc32_bit crc2 in
    let crc4 = crc32_bit crc3 in
    let crc5 = crc32_bit crc4 in
    let crc6 = crc32_bit crc5 in let crc7 = crc32_bit crc6 in crc32_bit crc7

-- The body of the first loop: four bytes.
abbrev crc32_four : List ℕ → ℕ → ℕ → ℕ
crc32_four bytes i crc =
    let crc1 = crc32_byte crc (get_or bytes i 0) in
    let crc2 = crc32_byte crc1 (get_or bytes (i + 1) 0) in
    let crc3 = crc32_byte crc2 (get_or bytes (i + 2) 0) in crc32_byte crc3 (get_or bytes (i + 3) 0)

abbrev crc32_one : List ℕ → ℕ → ℕ → ℕ
crc32_one bytes i crc = crc32_byte crc (get_or bytes i 0)

-- `crc32_compute(data, len)` on a buffer of at least `len` bytes.
unfoldable pub crc32_compute : List ℕ → ℕ → ℕ
unfolding for_loop
crc32_compute bytes len =
    let fours =
      for_loop len (2 ^ 32) 4 (bit_and len 0xffff_fffc) (crc32_four bytes) 0 0xffff_ffff in
    let rest = for_loop len (2 ^ 32) 1 len (crc32_one bytes) fours.0 fours.1 in
    bit_xor rest.1 0xffff_ffff

-- The unrolled computation is the plain one: every one of the first `len` bytes is fed once, in
-- order, to the byte step, starting from all ones, and the result is complemented; the length is
-- any that fits the buffer and `size_t`.
pub crc32_compute-foldl :
    (bytes : List ℕ) (len : ℕ)
    → len ≤ length bytes
    → len < 2 ^ 32
    → crc32_compute bytes len ≡ bit_xor (foldl crc32_byte 0xffff_ffff (take len bytes)) 0xffff_ffff
unfolding crc32_compute
crc32_compute-foldl bytes len h w =
    ap (λ (r : ℕ × ℕ). bit_xor r.1 0xffff_ffff)
      (unrolled (crc32_one bytes) (crc32_four bytes) (λ i s. refl) len (2 ^ 32) 0xffff_ffff w w)
    ∙ ap (λ (crc : ℕ). bit_xor crc 0xffff_ffff)
        (for_range-foldl crc32_byte 0 len bytes 0xffff_ffff h)
