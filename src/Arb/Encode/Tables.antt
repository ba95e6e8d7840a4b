-- ===== src/Arb/Encode/Tables.antt =====
-- The entries of the type table and of the constant pool (`Writer::type_data` and
-- `Writer::constant`, src/binary/writer.rs).
use astronomy.Prelude.{ℕ}
use astronomy.Ir.Types.{FloatKind, TypeData}
use astronomy.Ir.Constants.{ConstantData}
use astronomy.Arb.Writer.{Writer, ◌>>◌, u8, u32, u64, u128, bool, ids, blob}
use astronomy.Arb.Tags.TypeTag
use astronomy.Arb.Tags.ConstTag

abbrev pub float_kind : FloatKind → ℕ
float_kind FloatKind.f32 = 0
float_kind FloatKind.f64 = 1

unfoldable pub type_data : TypeData → Writer
type_data TypeData.void = u8 TypeTag.void
type_data (TypeData.int bits signed) = do u8 TypeTag.int; u32 bits; bool signed
type_data (TypeData.float kind) = do u8 TypeTag.float; u8 (float_kind kind)
type_data (TypeData.pointer pointee address_space) = do
  u8 TypeTag.pointer
  u32 pointee
  u32 address_space
type_data (TypeData.array element length) = do u8 TypeTag.array; u32 element; u64 length
type_data (TypeData.struct fields) = do u8 TypeTag.struct; ids fields
type_data (TypeData.function params variadic result) = do
  u8 TypeTag.function
  ids params
  bool variadic
  u32 result

unfoldable pub constant : ConstantData → Writer
constant (ConstantData.int ty width bits) = do u8 ConstTag.int; u32 ty; u32 width; u128 bits
constant (ConstantData.float ty bits) = do u8 ConstTag.float; u32 ty; u64 bits
constant (ConstantData.null pointee) = do u8 ConstTag.null; u32 pointee
constant (ConstantData.string b) = do u8 ConstTag.string; blob b
constant (ConstantData.aggregate ty elements) = do u8 ConstTag.aggregate; u32 ty; ids elements
