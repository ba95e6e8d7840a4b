-- ===== src/Arb/Tags.antt =====
-- The shared encoding tables of `.arb` (src/binary/mod.rs).
pub mod TypeTag
pub mod ConstTag
pub mod ValueTag
pub mod TermTag
pub mod Opcode
pub mod Section
use astronomy.Prelude.{ℕ, List, [], ◌∷◌}

-- `MAGIC`, `FORMAT_MAJOR` and `FORMAT_MINOR`
abbrev pub magic : List ℕ
magic = 0x7f ∷ b'A' ∷ b'R' ∷ b'B' ∷ 13 ∷ 10 ∷ 0x1a ∷ 10 ∷ []

abbrev pub format_major : ℕ
format_major = 1

abbrev pub format_minor : ℕ
format_minor = 0
