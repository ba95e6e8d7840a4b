-- ===== src/Arb/Decode/Tables.antt =====
-- The symbol table, the type table and the constant pool (`read_symbols`, `read_types`,
-- `read_type` and `read_constants`, src/binary/reader.rs).
use astronomy.Prelude.{
  ℕ, zero, suc, ◌+◌, ◌-◌, ◌%◌, ◌^◌, Bool, false, ◌&&◌, ◌||◌, not, List, [], ◌∷◌, none, some, ltb,
  leb, bit_and, String, if◌then◌else◌,
}
use astronomy.Prelude.Eq.{◌==◌, nat_eq}
use astronomy.Ir.Types.{
  TypeId, FloatKind, TypeData, TypeStore, intern_type, type_at, new_types, type_eq,
}
use astronomy.Ir.Constants.{ConstantData, ConstantStore, intern_constant, new_constants, mask}
use astronomy.Ir.Modules.{SymbolStore, intern_symbol, new_symbols}
use astronomy.Arb.Errors.{
  invalid_value, invalid_tag, duplicate_entry, forward_type_reference, not_utf8, too_few_types,
  not_the_scalar, bad_integer_type, not_masked,
}
use astronomy.Arb.Cursor.{
  Reader, pure, fail, ◌>>=◌, offset, u8, u32, u64, u128, bool, ids, blob, count,
}
use astronomy.Arb.Tags.TypeTag
use astronomy.Arb.Tags.ConstTag
use astronomy.Arb.Decode.Utf8.{is_utf8}

-- What interning entry `i` must give back: the id `i`.
unfoldable pub expect_id {ℓ} : {S : Type ℓ} → ℕ → ℕ → String → S × ℕ → Reader S
expect_id at i table (store, id) =
    if id == i then pure store else fail (duplicate_entry at table (i % 2 ^ 32))

unfoldable pub read_symbol : ℕ → SymbolStore → Reader SymbolStore
read_symbol i symbols = do
  at ← offset
  raw ← blob "symbol name"
  if is_utf8 raw
      then expect_id at i "symbol" (intern_symbol symbols raw)
      else fail (invalid_value at (not_utf8 i))

-- `for i in start..start + n`: each round reads an entry into the table.
unfoldable pub table_from {ℓ} : {S : Type ℓ} → (ℕ → S → Reader S) → ℕ → ℕ → S → Reader S
table_from read zero i table = pure table
table_from read (suc n) i table = do table' ← read i table; table_from read n (i + 1) table'

unfoldable pub read_symbols : Reader SymbolStore
read_symbols = do n ← count 4 "symbols"; table_from read_symbol n 0 new_symbols

-- Types may only refer to entries before their own.
unfoldable pub earlier : ℕ → ℕ → TypeId → Reader TypeId
earlier entry_at index id =
    if ltb id index then pure id else fail (forward_type_reference entry_at index id)

unfoldable pub all_earlier : ℕ → ℕ → List TypeId → Reader (List TypeId)
all_earlier entry_at index [] = pure []
all_earlier entry_at index (id ∷ more) = do
  id' ← earlier entry_at index id
  more' ← all_earlier entry_at index more
  pure (id' ∷ more')

unfoldable pub read_int_type : Reader TypeData
read_int_type = do
  bits_at ← offset
  bits ← u32 "integer width"
  signed ← bool "integer signedness"
  if not (leb 1 bits && leb bits 128) || (bits == 1 && signed)
      then fail (invalid_value bits_at (bad_integer_type bits signed))
      else pure (TypeData.int bits signed)

unfoldable pub read_float_type : Reader TypeData
read_float_type = do
  kind_at ← offset
  kind ← u8 "float kind"
  if kind == 0
      then pure (TypeData.float FloatKind.f32)
      else if kind == 1
      then pure (TypeData.float FloatKind.f64)
      else fail (invalid_tag kind_at "float kind" kind)

unfoldable pub read_pointer_type : ℕ → ℕ → Reader TypeData
read_pointer_type entry_at index = do
  id ← u32 "pointee type"
  pointee ← earlier entry_at index id
  address_space ← u32 "address space"
  pure (TypeData.pointer pointee address_space)

unfoldable pub read_array_type : ℕ → ℕ → Reader TypeData
read_array_type entry_at index = do
  id ← u32 "element type"
  element ← earlier entry_at index id
  length ← u64 "array length"
  pure (TypeData.array element length)

unfoldable pub read_struct_type : ℕ → ℕ → Reader TypeData
read_struct_type entry_at index = do
  listed ← ids "struct fields"
  fields ← all_earlier entry_at index listed
  pure (TypeData.struct fields)

unfoldable pub read_function_type : ℕ → ℕ → Reader TypeData
read_function_type entry_at index = do
  listed ← ids "function type parameters"
  params ← all_earlier entry_at index listed
  variadic ← bool "variadic flag"
  id ← u32 "result type"
  result ← earlier entry_at index id
  pure (TypeData.function params variadic result)

unfoldable pub read_type_body : ℕ → ℕ → ℕ → ℕ → Reader TypeData
read_type_body entry_at tag_at index tag =
    if tag == TypeTag.void
    then pure TypeData.void
    else if tag == TypeTag.int
    then read_int_type
    else if tag == TypeTag.float
    then read_float_type
    else if tag == TypeTag.pointer
    then read_pointer_type entry_at index
    else if tag == TypeTag.array
    then read_array_type entry_at index
    else if tag == TypeTag.struct
    then read_struct_type entry_at index
    else if tag == TypeTag.function
    then read_function_type entry_at index
    else fail (invalid_tag tag_at "type" tag)

unfoldable pub read_type : ℕ → Reader TypeData
read_type index = do
  entry_at ← offset
  tag_at ← offset
  tag ← u8 "type tag"
  read_type_body entry_at tag_at index tag

-- `SCALAR_TYPES`
abbrev pub scalar_types : ℕ
scalar_types = 14

-- The first entries repeat what `TypeStore::new` holds. The table starts with them, so that the
-- `expect` of the source always finds one.
unfoldable pub is_scalar_at : TypeStore → ℕ → TypeData → Bool
is_scalar_at types i t = elim (type_at types i) [ some expected ↦ t == expected | none ↦ false ]

unfoldable pub enter_type : ℕ → ℕ → TypeStore → TypeData → Reader TypeStore
enter_type at i types t =
    if ltb i scalar_types
    then (if is_scalar_at types i t then pure types else fail (invalid_value at (not_the_scalar i)))
    else expect_id at i "type" (intern_type types t)

unfoldable pub read_type_entry : ℕ → TypeStore → Reader TypeStore
read_type_entry i types = do at ← offset; t ← read_type (i % 2 ^ 32); enter_type at i types t

unfoldable pub enough_types : ℕ → ℕ → Reader TypeStore
enough_types count_at n =
    if ltb n scalar_types
    then fail (invalid_value count_at (too_few_types n))
    else table_from read_type_entry n 0 new_types

unfoldable pub read_types : Reader TypeStore
read_types = do count_at ← offset; n ← count 1 "types"; enough_types count_at n

-- `!mask` on a `u128`.
abbrev pub not_u128 : ℕ → ℕ
not_u128 x = 2 ^ 128 - 1 - x

unfoldable pub read_int_constant : ℕ → Reader ConstantData
read_int_constant i = do
  ty ← u32 "constant type"
  width_at ← offset
  width ← u32 "constant width"
  bits ← u128 "constant bits"
  if not (leb 1 width && leb width 128) || not (bit_and bits (not_u128 (mask width)) == 0)
      then fail (invalid_value width_at (not_masked i width))
      else pure (ConstantData.int ty width bits)

unfoldable pub read_constant_body : ℕ → ℕ → ℕ → Reader ConstantData
read_constant_body at i tag =
    if tag == ConstTag.int
    then read_int_constant i
    else if tag == ConstTag.float
    then (do
      ty ← u32 "constant type"
      bits ← u64 "constant bits"
      pure (ConstantData.float ty bits))
    else if tag == ConstTag.null
    then (do pointee ← u32 "pointee type"; pure (ConstantData.null pointee))
    else if tag == ConstTag.string
    then (do b ← blob "string bytes"; pure (ConstantData.string b))
    else if tag == ConstTag.aggregate
    then (do
      ty ← u32 "constant type"
      elements ← ids "aggregate elements"
      pure (ConstantData.aggregate ty elements))
    else fail (invalid_tag at "constant" tag)

unfoldable pub read_constant : ℕ → Reader ConstantData
read_constant i = do at ← offset; tag ← u8 "constant tag"; read_constant_body at i tag

unfoldable pub read_constant_entry : ℕ → ConstantStore → Reader ConstantStore
read_constant_entry i constants = do
  at ← offset
  c ← read_constant i
  expect_id at i "constant" (intern_constant constants c)

unfoldable pub read_constants : Reader ConstantStore
read_constants = do n ← count 5 "constants"; table_from read_constant_entry n 0 new_constants
