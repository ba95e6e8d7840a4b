-- ===== src/Arb/Tags/ConstTag.antt =====
-- The tag byte of an entry of the constant table (`const_tag`, src/binary/mod.rs).
use astronomy.Prelude.{ℕ}

abbrev pub int : ℕ
int = 0

abbrev pub float : ℕ
float = 1

abbrev pub null : ℕ
null = 2

abbrev pub string : ℕ
string = 3

abbrev pub aggregate : ℕ
aggregate = 4
