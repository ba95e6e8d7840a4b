-- ===== src/Arb/Crc.antt =====
-- CRC-32 (`crc32`, src/binary/mod.rs).
use astronomy.Prelude.{
  ℕ, zero, suc, ◌-◌, ◌/◌, ◌≡◌, refl, List, [], ◌∷◌, ◌==◌, bit_and, bit_xor, if◌then◌else◌,
}

-- One round of the loop that computes a table entry; `c >> 1` is `c / 2`.
unfoldable pub crc_round : ℕ → ℕ
crc_round c = if bit_and c 1 == 0 then c / 2 else bit_xor 0xedb88320 (c / 2)

unfoldable pub crc_rounds : ℕ → ℕ → ℕ
unfolding crc_round
crc_rounds zero c = c
crc_rounds (suc k) c = crc_rounds k (crc_round c)

-- `TABLE[i]`
unfoldable pub table : ℕ → ℕ
unfolding crc_rounds
table i = crc_rounds 8 i

-- The register after one more byte; `crc >> 8` is `crc / 256`.
unfoldable pub crc_byte : ℕ → ℕ → ℕ
unfolding table
crc_byte crc b = bit_xor (table (bit_and (bit_xor crc b) 0xff)) (crc / 256)

unfoldable pub crc_bytes : ℕ → List ℕ → ℕ
unfolding crc_byte
crc_bytes crc [] = crc
crc_bytes crc (b ∷ bs) = crc_bytes (crc_byte crc b) bs

-- `!0u32` is 0xffffffff, and `!crc` is its difference to `crc`.
unfoldable pub crc32 : List ℕ → ℕ
unfolding crc_bytes
crc32 bytes = 0xffffffff - crc_bytes 0xffffffff bytes

-- The check value of CRC-32, over "123456789".
crc32_check_value :
    crc32 (b'1' ∷ b'2' ∷ b'3' ∷ b'4' ∷ b'5' ∷ b'6' ∷ b'7' ∷ b'8' ∷ b'9' ∷ []) ≡ 0xcbf43926
unfolding crc32
crc32_check_value = refl
