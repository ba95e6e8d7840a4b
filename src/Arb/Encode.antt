-- ===== src/Arb/Encode.antt =====
-- `.arb` encoder: `write` (src/binary/writer.rs).
pub mod Tables
pub mod Functions
use astronomy.Prelude.{ℕ, List, [], Option, length}
use astronomy.Ir.Modules.{Module}
use astronomy.Arb.Writer.{
  Writer, ◌>>◌, and_then, bytes, u16, u32, opt_u32, len, blob, each, each_entry, section,
}
use astronomy.Arb.Tags.{magic, format_major, format_minor}
use astronomy.Arb.Tags.Section
use astronomy.Arb.Crc.{crc32}

unfoldable pub module_section : Module → Writer
module_section m = do u32 m.version.major; u32 m.version.minor; opt_u32 m.name

unfoldable pub symbol_section : Module → Writer
symbol_section m = do
  len (length m.symbols.entries)
  each_entry blob m.symbols (length m.symbols.entries) 0

unfoldable pub type_section : Module → Writer
type_section m = do
  len (length m.types.entries)
  each_entry Tables.type_data m.types (length m.types.entries) 0

unfoldable pub constant_section : Module → Writer
constant_section m = do
  len (length m.constants.entries)
  each_entry Tables.constant m.constants (length m.constants.entries) 0

unfoldable pub function_section : Module → Writer
function_section m = do len (length m.functions); each Functions.function m.functions

unfoldable pub header : Writer
header = do bytes magic; u16 format_major; u16 format_minor; u32 0

unfoldable pub sections : Module → Writer
sections m = do
  section Section.module_tag (module_section m)
  section Section.symbols (symbol_section m)
  section Section.types (type_section m)
  section Section.constants (constant_section m)
  section Section.functions (function_section m)

-- `none` is the documented panic, on a list of 2 ^ 32 entries or more.
unfoldable pub write : Module → Option (List ℕ)
write m = and_then ((header >> sections m) []) (λ out. u32 (crc32 out) out)
