-- ===== src/Arb/Samples.antt =====
-- A small module and its file.
use astronomy.Prelude.{ℕ, ◌≡◌, refl, false, List, [], ◌∷◌, none, some}
use astronomy.Ir.Types.{TypeData, intern_type, new_types}
use astronomy.Ir.Constants.{ConstantData, intern_constant, new_constants}
use astronomy.Ir.Functions.{
  ValueKind, InstructionKind, Terminator, BasicBlock, Linkage, Abi, Function,
}
use astronomy.Ir.Modules.{ArnVersion, Name, Module, intern_symbol, new_symbols, current}
use astronomy.Ir.Interner.{new, get, intern}
use astronomy.Ir.Types.{intern_all}
use astronomy.Arb.Bytes.{to_le_bytes}
use astronomy.Arb.Crc.{crc32, crc_bytes, crc_byte, table, crc_rounds, crc_round}
use astronomy.Arb.Writer
use astronomy.Arb.Writer.{◌>>◌, copy_from_slice}
use astronomy.Arb.Encode.Tables as Tables
use astronomy.Arb.Encode.Functions as Encode
use astronomy.Prelude.Eq.{nat_eq, list_eq}
use astronomy.Ir.Types.{type_eq}
use astronomy.Ir.Constants.{constant_eq}
use astronomy.Arb.Encode.{
  module_section, symbol_section, type_section, constant_section, function_section, header,
  sections, write,
}

-- `fn main(i32) -> i32`, which adds 5.
abbrev pub main : Name
main = b'm' ∷ b'a' ∷ b'i' ∷ b'n' ∷ []

abbrev pub entry : BasicBlock
entry = record {
  params = [];
  instructions =
      record { kind = InstructionKind.const 0; result = some 1; span = none }
      ∷ record {
        kind = InstructionKind.add 0 1;
        result = some 2;
        span = some (record { line = 3; col = 9 });
      }
      ∷ [];
  terminator = some (Terminator.return (some 2));
  name = none;
  span = none;
}

abbrev pub add_five : Function
add_five = record {
  symbol = 0;
  linkage = Linkage.exported;
  abi = Abi.c;
  params = record { value = 0; ty = 4 } ∷ [];
  result = 4;
  variadic = false;
  blocks = entry ∷ [];
  values =
      record { ty = 4; kind = ValueKind.param 0; name = none; span = none }
      ∷ record { ty = 4; kind = ValueKind.inst 0 0; name = none; span = none }
      ∷ record { ty = 4; kind = ValueKind.inst 0 1; name = none; span = none }
      ∷ [];
  span = none;
}

abbrev pub sample : Module
sample = record {
  version = current;
  name = some 0;
  symbols = (intern_symbol new_symbols main).0;
  types = (intern_type new_types (TypeData.pointer 4 0)).0;
  constants = (intern_constant new_constants (ConstantData.int 4 32 5)).0;
  functions = add_five ∷ [];
}

-- The bytes of the file, its checksum last.
abbrev pub sample_file : List ℕ
sample_file =
    127 ∷ 65 ∷ 82 ∷ 66 ∷ 13 ∷ 10 ∷ 26 ∷ 10 ∷ 1 ∷ 0 ∷ 0 ∷ 0 ∷ 0 ∷ 0 ∷ 0 ∷ 0 ∷ 77 ∷ 79 ∷ 68 ∷ 76 ∷ 13
    ∷ 0 ∷ 0 ∷ 0 ∷ 0 ∷ 0 ∷ 0 ∷ 0 ∷ 1 ∷ 0 ∷ 0 ∷ 0 ∷ 0 ∷ 0 ∷ 0 ∷ 0 ∷ 1 ∷ 0 ∷ 0 ∷ 0 ∷ 0 ∷ 83 ∷ 89 ∷ 77
    ∷ 66 ∷ 12 ∷ 0 ∷ 0 ∷ 0 ∷ 0 ∷ 0 ∷ 0 ∷ 0 ∷ 1 ∷ 0 ∷ 0 ∷ 0 ∷ 4 ∷ 0 ∷ 0 ∷ 0 ∷ 109 ∷ 97 ∷ 105 ∷ 110
    ∷ 84 ∷ 89 ∷ 80 ∷ 69 ∷ 84 ∷ 0 ∷ 0 ∷ 0 ∷ 0 ∷ 0 ∷ 0 ∷ 0 ∷ 15 ∷ 0 ∷ 0 ∷ 0 ∷ 0 ∷ 1 ∷ 1 ∷ 0 ∷ 0 ∷ 0
    ∷ 0 ∷ 1 ∷ 8 ∷ 0 ∷ 0 ∷ 0 ∷ 1 ∷ 1 ∷ 16 ∷ 0 ∷ 0 ∷ 0 ∷ 1 ∷ 1 ∷ 32 ∷ 0 ∷ 0 ∷ 0 ∷ 1 ∷ 1 ∷ 64 ∷ 0 ∷ 0
    ∷ 0 ∷ 1 ∷ 1 ∷ 128 ∷ 0 ∷ 0 ∷ 0 ∷ 1 ∷ 1 ∷ 8 ∷ 0 ∷ 0 ∷ 0 ∷ 0 ∷ 1 ∷ 16 ∷ 0 ∷ 0 ∷ 0 ∷ 0 ∷ 1 ∷ 32 ∷ 0
    ∷ 0 ∷ 0 ∷ 0 ∷ 1 ∷ 64 ∷ 0 ∷ 0 ∷ 0 ∷ 0 ∷ 1 ∷ 128 ∷ 0 ∷ 0 ∷ 0 ∷ 0 ∷ 2 ∷ 0 ∷ 2 ∷ 1 ∷ 3 ∷ 4 ∷ 0 ∷ 0
    ∷ 0 ∷ 0 ∷ 0 ∷ 0 ∷ 0 ∷ 67 ∷ 78 ∷ 83 ∷ 84 ∷ 29 ∷ 0 ∷ 0 ∷ 0 ∷ 0 ∷ 0 ∷ 0 ∷ 0 ∷ 1 ∷ 0 ∷ 0 ∷ 0 ∷ 0 ∷ 4
    ∷ 0 ∷ 0 ∷ 0 ∷ 32 ∷ 0 ∷ 0 ∷ 0 ∷ 5 ∷ 0 ∷ 0 ∷ 0 ∷ 0 ∷ 0 ∷ 0 ∷ 0 ∷ 0 ∷ 0 ∷ 0 ∷ 0 ∷ 0 ∷ 0 ∷ 0 ∷ 0
    ∷ 70 ∷ 85 ∷ 78 ∷ 67 ∷ 112 ∷ 0 ∷ 0 ∷ 0 ∷ 0 ∷ 0 ∷ 0 ∷ 0 ∷ 1 ∷ 0 ∷ 0 ∷ 0 ∷ 0 ∷ 0 ∷ 0 ∷ 0 ∷ 2 ∷ 1
    ∷ 0 ∷ 4 ∷ 0 ∷ 0 ∷ 0 ∷ 1 ∷ 0 ∷ 0 ∷ 0 ∷ 0 ∷ 0 ∷ 0 ∷ 0 ∷ 4 ∷ 0 ∷ 0 ∷ 0 ∷ 3 ∷ 0 ∷ 0 ∷ 0 ∷ 4 ∷ 0 ∷ 0
    ∷ 0 ∷ 1 ∷ 0 ∷ 0 ∷ 0 ∷ 0 ∷ 0 ∷ 4 ∷ 0 ∷ 0 ∷ 0 ∷ 3 ∷ 0 ∷ 0 ∷ 0 ∷ 0 ∷ 0 ∷ 0 ∷ 0 ∷ 0 ∷ 0 ∷ 4 ∷ 0 ∷ 0
    ∷ 0 ∷ 3 ∷ 0 ∷ 0 ∷ 0 ∷ 0 ∷ 1 ∷ 0 ∷ 0 ∷ 0 ∷ 0 ∷ 1 ∷ 0 ∷ 0 ∷ 0 ∷ 0 ∷ 0 ∷ 0 ∷ 0 ∷ 0 ∷ 2 ∷ 0 ∷ 0 ∷ 0
    ∷ 0 ∷ 0 ∷ 0 ∷ 0 ∷ 0 ∷ 1 ∷ 1 ∷ 0 ∷ 0 ∷ 0 ∷ 1 ∷ 0 ∷ 0 ∷ 0 ∷ 0 ∷ 1 ∷ 0 ∷ 0 ∷ 0 ∷ 1 ∷ 2 ∷ 0 ∷ 0 ∷ 0
    ∷ 3 ∷ 1 ∷ 2 ∷ 0 ∷ 0 ∷ 0 ∷ 218 ∷ 101 ∷ 19 ∷ 162 ∷ []

pub sample_written : write sample ≡ some sample_file
unfolding ◌>>◌ Writer.skip Writer.bytes Writer.u8 Writer.bool Writer.u16 Writer.u32 Writer.u64
    Writer.u128 Writer.len Writer.opt_u32 Writer.blob Writer.each Writer.ids Writer.each_entry
    copy_from_slice Writer.section module_section symbol_section type_section constant_section
    function_section header sections write Tables.type_data Tables.constant Encode.instruction_kind
    Encode.instruction Encode.terminator Encode.block_param Encode.block Encode.abi Encode.param
    Encode.value_kind Encode.value Encode.function new_types intern_all intern_type intern_symbol
    new_symbols intern_constant new_constants intern new get crc32 crc_bytes crc_byte table
    crc_rounds crc_round to_le_bytes
sample_written = refl

-- The same module, of major version 2.
abbrev pub newer : ArnVersion
newer = record { major = 2; minor = 0 }

abbrev pub newer_file : List ℕ
newer_file =
    127 ∷ 65 ∷ 82 ∷ 66 ∷ 13 ∷ 10 ∷ 26 ∷ 10 ∷ 1 ∷ 0 ∷ 0 ∷ 0 ∷ 0 ∷ 0 ∷ 0 ∷ 0 ∷ 77 ∷ 79 ∷ 68 ∷ 76 ∷ 13
    ∷ 0 ∷ 0 ∷ 0 ∷ 0 ∷ 0 ∷ 0 ∷ 0 ∷ 2 ∷ 0 ∷ 0 ∷ 0 ∷ 0 ∷ 0 ∷ 0 ∷ 0 ∷ 1 ∷ 0 ∷ 0 ∷ 0 ∷ 0 ∷ 83 ∷ 89 ∷ 77
    ∷ 66 ∷ 12 ∷ 0 ∷ 0 ∷ 0 ∷ 0 ∷ 0 ∷ 0 ∷ 0 ∷ 1 ∷ 0 ∷ 0 ∷ 0 ∷ 4 ∷ 0 ∷ 0 ∷ 0 ∷ 109 ∷ 97 ∷ 105 ∷ 110
    ∷ 84 ∷ 89 ∷ 80 ∷ 69 ∷ 84 ∷ 0 ∷ 0 ∷ 0 ∷ 0 ∷ 0 ∷ 0 ∷ 0 ∷ 15 ∷ 0 ∷ 0 ∷ 0 ∷ 0 ∷ 1 ∷ 1 ∷ 0 ∷ 0 ∷ 0
    ∷ 0 ∷ 1 ∷ 8 ∷ 0 ∷ 0 ∷ 0 ∷ 1 ∷ 1 ∷ 16 ∷ 0 ∷ 0 ∷ 0 ∷ 1 ∷ 1 ∷ 32 ∷ 0 ∷ 0 ∷ 0 ∷ 1 ∷ 1 ∷ 64 ∷ 0 ∷ 0
    ∷ 0 ∷ 1 ∷ 1 ∷ 128 ∷ 0 ∷ 0 ∷ 0 ∷ 1 ∷ 1 ∷ 8 ∷ 0 ∷ 0 ∷ 0 ∷ 0 ∷ 1 ∷ 16 ∷ 0 ∷ 0 ∷ 0 ∷ 0 ∷ 1 ∷ 32 ∷ 0
    ∷ 0 ∷ 0 ∷ 0 ∷ 1 ∷ 64 ∷ 0 ∷ 0 ∷ 0 ∷ 0 ∷ 1 ∷ 128 ∷ 0 ∷ 0 ∷ 0 ∷ 0 ∷ 2 ∷ 0 ∷ 2 ∷ 1 ∷ 3 ∷ 4 ∷ 0 ∷ 0
    ∷ 0 ∷ 0 ∷ 0 ∷ 0 ∷ 0 ∷ 67 ∷ 78 ∷ 83 ∷ 84 ∷ 29 ∷ 0 ∷ 0 ∷ 0 ∷ 0 ∷ 0 ∷ 0 ∷ 0 ∷ 1 ∷ 0 ∷ 0 ∷ 0 ∷ 0 ∷ 4
    ∷ 0 ∷ 0 ∷ 0 ∷ 32 ∷ 0 ∷ 0 ∷ 0 ∷ 5 ∷ 0 ∷ 0 ∷ 0 ∷ 0 ∷ 0 ∷ 0 ∷ 0 ∷ 0 ∷ 0 ∷ 0 ∷ 0 ∷ 0 ∷ 0 ∷ 0 ∷ 0
    ∷ 70 ∷ 85 ∷ 78 ∷ 67 ∷ 112 ∷ 0 ∷ 0 ∷ 0 ∷ 0 ∷ 0 ∷ 0 ∷ 0 ∷ 1 ∷ 0 ∷ 0 ∷ 0 ∷ 0 ∷ 0 ∷ 0 ∷ 0 ∷ 2 ∷ 1
    ∷ 0 ∷ 4 ∷ 0 ∷ 0 ∷ 0 ∷ 1 ∷ 0 ∷ 0 ∷ 0 ∷ 0 ∷ 0 ∷ 0 ∷ 0 ∷ 4 ∷ 0 ∷ 0 ∷ 0 ∷ 3 ∷ 0 ∷ 0 ∷ 0 ∷ 4 ∷ 0 ∷ 0
    ∷ 0 ∷ 1 ∷ 0 ∷ 0 ∷ 0 ∷ 0 ∷ 0 ∷ 4 ∷ 0 ∷ 0 ∷ 0 ∷ 3 ∷ 0 ∷ 0 ∷ 0 ∷ 0 ∷ 0 ∷ 0 ∷ 0 ∷ 0 ∷ 0 ∷ 4 ∷ 0 ∷ 0
    ∷ 0 ∷ 3 ∷ 0 ∷ 0 ∷ 0 ∷ 0 ∷ 1 ∷ 0 ∷ 0 ∷ 0 ∷ 0 ∷ 1 ∷ 0 ∷ 0 ∷ 0 ∷ 0 ∷ 0 ∷ 0 ∷ 0 ∷ 0 ∷ 2 ∷ 0 ∷ 0 ∷ 0
    ∷ 0 ∷ 0 ∷ 0 ∷ 0 ∷ 0 ∷ 1 ∷ 1 ∷ 0 ∷ 0 ∷ 0 ∷ 1 ∷ 0 ∷ 0 ∷ 0 ∷ 0 ∷ 1 ∷ 0 ∷ 0 ∷ 0 ∷ 1 ∷ 2 ∷ 0 ∷ 0 ∷ 0
    ∷ 3 ∷ 1 ∷ 2 ∷ 0 ∷ 0 ∷ 0 ∷ 212 ∷ 253 ∷ 52 ∷ 84 ∷ []

pub newer_written : write (record sample { version = newer }) ≡ some newer_file
unfolding ◌>>◌ Writer.skip Writer.bytes Writer.u8 Writer.bool Writer.u16 Writer.u32 Writer.u64
    Writer.u128 Writer.len Writer.opt_u32 Writer.blob Writer.each Writer.ids Writer.each_entry
    copy_from_slice Writer.section module_section symbol_section type_section constant_section
    function_section header sections write Tables.type_data Tables.constant Encode.instruction_kind
    Encode.instruction Encode.terminator Encode.block_param Encode.block Encode.abi Encode.param
    Encode.value_kind Encode.value Encode.function new_types intern_all intern_type intern_symbol
    new_symbols intern_constant new_constants intern new get crc32 crc_bytes crc_byte table
    crc_rounds crc_round to_le_bytes
newer_written = refl
