-- ===== src/Arb/Tags/TermTag.antt =====
-- The tag byte of a terminator (`term_tag`, src/binary/mod.rs).
use astronomy.Prelude.{ℕ}

abbrev pub none : ℕ
none = 0

abbrev pub jump : ℕ
jump = 1

abbrev pub branch : ℕ
branch = 2

abbrev pub return : ℕ
return = 3

abbrev pub unreachable : ℕ
unreachable = 4
