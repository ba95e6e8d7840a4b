-- ===== src/Arb/Decode/Functions.antt =====
-- Functions, blocks and values (`check_symbol`, `read_opt_symbol`, `read_function`, `read_block`
-- and `read_value`, src/binary/reader.rs).
use astronomy.Prelude.{ℕ, Option, none, some, length, ltb, ◌==◌, String, if◌then◌else◌}
use astronomy.Ir.Functions.{
  SymbolId, ValueKind, ValueData, BlockParam, BasicBlock, Linkage, Abi, Param, Function,
}
use astronomy.Ir.Modules.{SymbolStore}
use astronomy.Arb.Errors.{invalid_value, invalid_tag, no_such_symbol}
use astronomy.Arb.Cursor.{
  Reader, pure, fail, ◌>>=◌, offset, u8, u32, bool, opt_u32, list_of, values,
}
use astronomy.Arb.Tags.ValueTag
use astronomy.Arb.Decode.Instructions.{read_instruction, read_terminator}

unfoldable pub check_symbol : ℕ → SymbolStore → ℕ → Reader SymbolId
check_symbol id symbols at =
    if ltb id (length symbols.entries)
    then pure id
    else fail (invalid_value at (no_such_symbol id (length symbols.entries)))

-- `.map(|id| check_symbol(id, symbols, at)).transpose()`
unfoldable pub check_opt_symbol : Option ℕ → SymbolStore → ℕ → Reader (Option SymbolId)
check_opt_symbol none symbols at = pure none
check_opt_symbol (some id) symbols at = do id' ← check_symbol id symbols at; pure (some id')

unfoldable pub read_opt_symbol : SymbolStore → String → Reader (Option SymbolId)
read_opt_symbol symbols what = do at ← offset; id ← opt_u32 what; check_opt_symbol id symbols at

unfoldable pub read_block_param : Reader BlockParam
read_block_param = do
  value ← u32 "block parameter value"
  ty ← u32 "block parameter type"
  pure (record { value = value; ty = ty })

unfoldable pub read_block : SymbolStore → Reader BasicBlock
read_block symbols = do
  name ← read_opt_symbol symbols "block name"
  params ← list_of 8 "block parameters" read_block_param
  instructions ← list_of 6 "instructions" read_instruction
  terminator ← read_terminator
  pure (record {
    params = params;
    instructions = instructions;
    terminator = terminator;
    name = name;
    span = none;
  })

unfoldable pub read_linkage : Reader Linkage
read_linkage = do
  at ← offset
  tag ← u8 "linkage"
  if tag == 0
      then pure Linkage.internal
      else if tag == 1
      then pure Linkage.external
      else if tag == 2
      then pure Linkage.exported
      else fail (invalid_tag at "linkage" tag)

unfoldable pub read_custom_abi : SymbolStore → Reader Abi
read_custom_abi symbols = do
  sym_at ← offset
  id ← u32 "custom abi symbol"
  symbol ← check_symbol id symbols sym_at
  pure (Abi.custom symbol)

unfoldable pub read_abi : SymbolStore → Reader Abi
read_abi symbols = do
  at ← offset
  tag ← u8 "abi"
  if tag == 0
      then pure Abi.astronomy_abi
      else if tag == 1
      then pure Abi.c
      else if tag == 2
      then pure Abi.system
      else if tag == 3
      then read_custom_abi symbols
      else fail (invalid_tag at "abi" tag)

unfoldable pub read_param : Reader Param
read_param = do
  value ← u32 "parameter value"
  ty ← u32 "parameter type"
  pure (record { value = value; ty = ty })

unfoldable pub value_kind_body : ℕ → ℕ → Reader ValueKind
value_kind_body at tag =
    if tag == ValueTag.reserved
    then pure ValueKind.reserved
    else if tag == ValueTag.param
    then (do index ← u32 "parameter index"; pure (ValueKind.param index))
    else if tag == ValueTag.block_param
    then (do
      block ← u32 "block"
      index ← u32 "block parameter index"
      pure (ValueKind.block_param block index))
    else if tag == ValueTag.inst
    then (do
      block ← u32 "block"
      index ← u32 "instruction index"
      pure (ValueKind.inst block index))
    else fail (invalid_tag at "value kind" tag)

unfoldable pub read_value_kind : Reader ValueKind
read_value_kind = do at ← offset; tag ← u8 "value kind"; value_kind_body at tag

unfoldable pub read_value : SymbolStore → Reader ValueData
read_value symbols = do
  ty ← u32 "value type"
  kind ← read_value_kind
  name ← read_opt_symbol symbols "value name"
  pure (record { ty = ty; kind = kind; name = name; span = none })

unfoldable pub read_function_symbol : SymbolStore → Reader SymbolId
read_function_symbol symbols = do
  at ← offset
  id ← u32 "function symbol"
  check_symbol id symbols at

unfoldable pub read_function : SymbolStore → Reader Function
read_function symbols = do
  symbol ← read_function_symbol symbols
  linkage ← read_linkage
  abi ← read_abi symbols
  variadic ← bool "variadic flag"
  result ← u32 "result type"
  params ← list_of 8 "parameters" read_param
  values ← list_of 6 "values" (read_value symbols)
  blocks ← list_of 10 "blocks" (read_block symbols)
  pure (record {
    symbol = symbol;
    linkage = linkage;
    abi = abi;
    params = params;
    result = result;
    variadic = variadic;
    blocks = blocks;
    values = values;
    span = none;
  })
