-- ===== src/Arb/Tags/ValueTag.antt =====
-- The tag byte of a value (`value_tag`, src/binary/mod.rs).
use astronomy.Prelude.{ℕ}

abbrev pub reserved : ℕ
reserved = 0

abbrev pub param : ℕ
param = 1

abbrev pub block_param : ℕ
block_param = 2

abbrev pub inst : ℕ
inst = 3
