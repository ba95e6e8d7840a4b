-- ===== src/Arb/Decode.antt =====
-- `.arb` decoder: `read` (src/binary/reader.rs).
pub mod Utf8
pub mod Tables
pub mod Instructions
pub mod Functions
use astronomy.Prelude.{
  ℕ, ◌+◌, ◌-◌, Bool, true, false, ◌&&◌, List, [], ◌∷◌, Option, length, take as take_list, drop, ltb,
  ◌==◌, if◌then◌else◌,
}
use astronomy.Ir.Functions.{SymbolId}
use astronomy.Ir.Modules.{Module, ArnVersion, supported_major}
use astronomy.Arb.Bytes.{from_le_bytes}
use astronomy.Arb.Errors.{
  Result, ok, err, bad_magic, unsupported_format_version, unsupported_version, unexpected_eof,
  checksum_mismatch, invalid_value, flags_not_zero, trailing_bytes,
}
use astronomy.Arb.Cursor.{
  Cursor, Reader, pure, fail, ◌>>=◌, offset, take, u16, u32, opt_u32, list_of, section, finish, new,
  is_empty,
}
use astronomy.Arb.Tags.{magic, format_major}
use astronomy.Arb.Tags.Section
use astronomy.Arb.Crc.{crc32}

-- `slice::starts_with`
unfoldable pub starts_with : List ℕ → List ℕ → Bool
starts_with bytes [] = true
starts_with [] (p ∷ ps) = false
starts_with (b ∷ bs) (p ∷ ps) = b == p && starts_with bs ps

-- `is_arb`
unfoldable pub is_arb : List ℕ → Bool
is_arb bytes = starts_with bytes magic

-- The cursor over a section's body is used up by `read`, and must then be at its end.
abbrev pub finish_section {ℓ} : {A : Type ℓ} → Cursor → Result (A × Cursor) → Result (A × Cursor)
finish_section file (ok (a, s)) = elim (finish s) [ ok _ ↦ ok (a, file) | err e ↦ err e ]
finish_section file (err e) = err e

unfoldable pub in_section {ℓ} : {A : Type ℓ} → List ℕ → Reader A → Reader A
in_section tag read = do s ← section tag; (λ file. finish_section file (read s))

pub record ModuleSection : Type 0 where
  pub version : ArnVersion
  pub name_at : ℕ
  pub name_id : Option ℕ

unfoldable pub supported : ℕ → ArnVersion → Reader ArnVersion
supported at version =
    if version.major == supported_major
    then pure version
    else fail (unsupported_version at version.major supported_major)

unfoldable pub read_module_section : Reader ModuleSection
read_module_section = do
  version_at ← offset
  major ← u32 "module version"
  minor ← u32 "module version"
  version ← supported version_at (record { major = major; minor = minor })
  name_at ← offset
  id ← opt_u32 "module name"
  pure (record { version = version; name_at = name_at; name_id = id })

unfoldable pub read_sections : Reader Module
read_sections = do
  s ← in_section Section.module_tag read_module_section
  symbols ← in_section Section.symbols Tables.read_symbols
  name ← Functions.check_opt_symbol s.name_id symbols s.name_at
  types ← in_section Section.types Tables.read_types
  constants ← in_section Section.constants Tables.read_constants
  functions ←
      in_section Section.functions (list_of 23 "functions" (Functions.read_function symbols))
  pure (record {
    version = s.version;
    name = name;
    symbols = symbols;
    types = types;
    constants = constants;
    functions = functions;
  })

unfoldable pub format_supported : ℕ → Reader (Unit {0})
format_supported major =
    if major == format_major then pure tt else fail (unsupported_format_version major format_major)

unfoldable pub flags_clear : ℕ → ℕ → Reader (Unit {0})
flags_clear flags_at flags =
    if flags == 0 then pure tt else fail (invalid_value flags_at (flags_not_zero flags))

unfoldable pub read_header : Reader (Unit {0})
read_header = do
  found ← take 8 "magic"
  major ← u16 "format version"
  minor ← u16 "format version"
  known ← format_supported major
  flags_at ← offset
  flags ← u32 "header flags"
  flags_clear flags_at flags

-- `HEADER_LEN` and `FOOTER_LEN`
abbrev pub header_len : ℕ
header_len = 16

abbrev pub footer_len : ℕ
footer_len = 4

abbrev pub at_end : Result (Module × Cursor) → Result Module
at_end (ok (m, file)) = if is_empty file then ok m else err (trailing_bytes (file.base + file.pos))
at_end (err e) = err e

-- What follows the header checks: `body` is everything but the footer, which holds its checksum.
unfoldable pub read_body : List ℕ → ℕ → Result Module
read_body body stored =
    if stored == crc32 body
    then at_end (read_sections (new (drop header_len body) header_len))
    else err (checksum_mismatch stored (crc32 body))

abbrev pub after_header : List ℕ → Result (Unit {0} × Cursor) → Result Module
after_header bytes (err e) = err e
after_header bytes (ok _) =
    let body_end = length bytes - footer_len in
    if ltb (length bytes) (header_len + footer_len)
    then err (unexpected_eof (length bytes) "checksum")
    else read_body (take_list body_end bytes) (from_le_bytes (drop body_end bytes))

unfoldable pub read : List ℕ → Result Module
read bytes = if is_arb bytes then after_header bytes (read_header (new bytes 0)) else err bad_magic
