-- ===== src/Arb/Errors.antt =====
-- What `read` can refuse (`ArbError`, src/error.rs). A message that the source formats into a text
-- is a constructor of `Reason` with the values that are put into it; a section's name is its tag.
use astronomy.Prelude.{ℕ, Bool, List, Option, String}

pub data Reason : Type 0 where
  flags_not_zero : (flags : ℕ) → Reason
  not_utf8 : (symbol : ℕ) → Reason
  too_few_types : (count : ℕ) → Reason
  not_the_scalar : (index : ℕ) → Reason
  bad_integer_type : (bits : ℕ) (signed : Bool) → Reason
  not_masked : (index width : ℕ) → Reason
  no_such_symbol : (id count : ℕ) → Reason
  not_a_flag : (what : String) (found : ℕ) → Reason
  not_a_presence : (what : String) (found : ℕ) → Reason
  cannot_fit : (count : ℕ) (what : String) (remaining : ℕ) → Reason
  length_exceeds : (len remaining : ℕ) → Reason
  unused_bytes : (count : ℕ) → Reason

pub data ArbError : Type 0 where
  bad_magic : ArbError
  unsupported_format_version : (found supported : ℕ) → ArbError
  unsupported_version : (offset found supported : ℕ) → ArbError
  unexpected_eof : (offset : ℕ) (what : String) → ArbError
  checksum_mismatch : (stored computed : ℕ) → ArbError
  unexpected_section : (offset : ℕ) (expected : List ℕ) (found : Option (List ℕ)) → ArbError
  section_length : (offset : ℕ) (section : List ℕ) (reason : Reason) → ArbError
  invalid_tag : (offset : ℕ) (what : String) (tag : ℕ) → ArbError
  invalid_value : (offset : ℕ) (reason : Reason) → ArbError
  duplicate_entry : (offset : ℕ) (table : String) (index : ℕ) → ArbError
  forward_type_reference : (offset index referenced : ℕ) → ArbError
  trailing_bytes : (offset : ℕ) → ArbError

pub data Result {ℓ} (A : Type ℓ) : Type ℓ where
  ok : A → Result A
  err : ArbError → Result A
