-- ===== src/Arb/Tags/Section.antt =====
-- Section tags, in the mandatory file order (`section`, src/binary/mod.rs).
use astronomy.Prelude.{ℕ, List, [], ◌∷◌}

abbrev pub module_tag : List ℕ
module_tag = b'M' ∷ b'O' ∷ b'D' ∷ b'L' ∷ []

abbrev pub symbols : List ℕ
symbols = b'S' ∷ b'Y' ∷ b'M' ∷ b'B' ∷ []

abbrev pub types : List ℕ
types = b'T' ∷ b'Y' ∷ b'P' ∷ b'E' ∷ []

abbrev pub constants : List ℕ
constants = b'C' ∷ b'N' ∷ b'S' ∷ b'T' ∷ []

abbrev pub functions : List ℕ
functions = b'F' ∷ b'U' ∷ b'N' ∷ b'C' ∷ []
