-- ===== src/Arb/Tags/TypeTag.antt =====
-- The tag byte of an entry of the type table (`type_tag`, src/binary/mod.rs).
use astronomy.Prelude.{ℕ}

abbrev pub void : ℕ
void = 0

abbrev pub int : ℕ
int = 1

abbrev pub float : ℕ
float = 2

abbrev pub pointer : ℕ
pointer = 3

abbrev pub array : ℕ
array = 4

abbrev pub struct : ℕ
struct = 5

abbrev pub function : ℕ
function = 6
