-- ===== src/Arb/Total/Modules.antt =====
-- Each writer of `.arb` returns where the lists it is given are short.
use astronomy.Prelude.{ℕ, ◌≡◌, List, [], Option, none, some}
use astronomy.Ir.Types.{TypeData}
use astronomy.Ir.Constants.{ConstantData}
use astronomy.Ir.Functions.{
  ValueKind, ValueData, InstructionKind, Instruction, BlockParam, Terminator, BasicBlock, Abi,
  Param, Function,
}
use astronomy.Ir.Modules.{Module}
use astronomy.Arb.Crc.{crc32}
use astronomy.Arb.Writer
use astronomy.Arb.Writer.{Writer, ◌>>◌, and_then, copy_from_slice}
use astronomy.Arb.Encode.{
  write, header, sections, module_section, symbol_section, type_section, constant_section,
  function_section,
}
use astronomy.Arb.Encode.Tables as Tables
use astronomy.Arb.Encode.Functions as Encode
use astronomy.Arb.Total.{
  IsShort, ShortType, ShortConstant, ShortKind, ShortTerminator, ShortBlock, ShortFunction,
  ShortModule,
}
use astronomy.Arb.Total.Returns.{
  Returns, Returns-bytes, Returns-then, Returns-u8, Returns-bool, Returns-u16, Returns-u32,
  Returns-u64, Returns-u128, Returns-opt_u32, Returns-list, Returns-ids, Returns-blob,
  Returns-section, Returns-table, All-Unit,
}

ruleset returns = (
  Returns-then, Returns-u8, Returns-bool, Returns-u16, Returns-u32, Returns-u64, Returns-u128,
  Returns-opt_u32, Returns-ids, Returns-blob,
)

Returns-type : (t : TypeData) → ShortType t → Returns (Tables.type_data t)
unfolding Tables.type_data
Returns-type TypeData.void h = search (returns)
Returns-type (TypeData.int bits signed) h = search (returns)
Returns-type (TypeData.float kind) h = search (returns)
Returns-type (TypeData.pointer pointee address_space) h = search (returns)
Returns-type (TypeData.array element count) h = search (returns)
Returns-type (TypeData.struct fields) h = search (returns)
Returns-type (TypeData.function params variadic result) h = search (returns)

Returns-constant : (c : ConstantData) → ShortConstant c → Returns (Tables.constant c)
unfolding Tables.constant
Returns-constant (ConstantData.int ty width bits) h = search (returns)
Returns-constant (ConstantData.float ty bits) h = search (returns)
Returns-constant (ConstantData.null pointee) h = search (returns)
Returns-constant (ConstantData.string b) h = search (returns)
Returns-constant (ConstantData.aggregate ty elements) h = search (returns)

Returns-terminator : (t : Option Terminator) → ShortTerminator t → Returns (Encode.terminator t)
unfolding Encode.terminator
Returns-terminator none h = search (returns)
Returns-terminator (some (Terminator.jump target args)) h = search (returns)
Returns-terminator (some (Terminator.branch c t ts e es)) (ht, he) = search (returns) depth 12
Returns-terminator (some (Terminator.return value)) h = search (returns)
Returns-terminator (some Terminator.unreachable) h = search (returns)

Returns-value_kind : (k : ValueKind) → Returns (Encode.value_kind k)
unfolding Encode.value_kind
Returns-value_kind ValueKind.reserved = search (returns)
Returns-value_kind (ValueKind.param index) = search (returns)
Returns-value_kind (ValueKind.block_param block index) = search (returns)
Returns-value_kind (ValueKind.inst block index) = search (returns)

Returns-value : (v : ValueData) → Returns (Encode.value v)
unfolding Encode.value
Returns-value v = search (returns, Returns-value_kind)

Returns-abi : (a : Abi) → Returns (Encode.abi a)
unfolding Encode.abi
Returns-abi Abi.astronomy_abi = search (returns)
Returns-abi Abi.c = search (returns)
Returns-abi Abi.system = search (returns)
Returns-abi (Abi.custom symbol) = search (returns)

Returns-binary : (op a b : ℕ) → Returns (Encode.binary op a b)
Returns-binary op a b = search (returns)

Returns-kind : (k : InstructionKind) → ShortKind k → Returns (Encode.instruction_kind k)
unfolding Encode.instruction_kind
Returns-kind (InstructionKind.const c) h = search (returns)
Returns-kind (InstructionKind.alloca pointee) h = search (returns)
Returns-kind (InstructionKind.call callee args) h = search (returns)
Returns-kind (InstructionKind.construct ty fields) h = search (returns)
Returns-kind (InstructionKind.insert aggregate index value) h = search (returns)
Returns-kind (InstructionKind.add a b) h = Returns-binary _ a b
Returns-kind (InstructionKind.sub a b) h = Returns-binary _ a b
Returns-kind (InstructionKind.mul a b) h = Returns-binary _ a b
Returns-kind (InstructionKind.div a b) h = Returns-binary _ a b
Returns-kind (InstructionKind.rem a b) h = Returns-binary _ a b
Returns-kind (InstructionKind.and a b) h = Returns-binary _ a b
Returns-kind (InstructionKind.or a b) h = Returns-binary _ a b
Returns-kind (InstructionKind.xor a b) h = Returns-binary _ a b
Returns-kind (InstructionKind.shl a b) h = Returns-binary _ a b
Returns-kind (InstructionKind.shr a b) h = Returns-binary _ a b
Returns-kind (InstructionKind.eq a b) h = Returns-binary _ a b
Returns-kind (InstructionKind.ne a b) h = Returns-binary _ a b
Returns-kind (InstructionKind.lt a b) h = Returns-binary _ a b
Returns-kind (InstructionKind.le a b) h = Returns-binary _ a b
Returns-kind (InstructionKind.gt a b) h = Returns-binary _ a b
Returns-kind (InstructionKind.ge a b) h = Returns-binary _ a b
Returns-kind (InstructionKind.load a b) h = Returns-binary _ a b
Returns-kind (InstructionKind.store a b) h = Returns-binary _ a b
Returns-kind (InstructionKind.ptr_offset a b) h = Returns-binary _ a b
Returns-kind (InstructionKind.ext a b) h = Returns-binary _ a b
Returns-kind (InstructionKind.trunc a b) h = Returns-binary _ a b
Returns-kind (InstructionKind.int_to_float a b) h = Returns-binary _ a b
Returns-kind (InstructionKind.float_to_int a b) h = Returns-binary _ a b
Returns-kind (InstructionKind.ptr_cast a b) h = Returns-binary _ a b
Returns-kind (InstructionKind.extract a b) h = Returns-binary _ a b

Returns-instruction : (i : Instruction) → ShortKind i.kind → Returns (Encode.instruction i)
unfolding Encode.instruction
Returns-instruction i h = Returns-then (Returns-kind i.kind h) (Returns-opt_u32 i.result)

Returns-block_param : (p : BlockParam) → Returns (Encode.block_param p)
unfolding Encode.block_param
Returns-block_param p = search (returns)

Returns-param : (p : Param) → Returns (Encode.param p)
unfolding Encode.param
Returns-param p = search (returns)

Returns-block : (b : BasicBlock) → ShortBlock b → Returns (Encode.block b)
unfolding Encode.block
Returns-block b h = Returns-then (Returns-opt_u32 b.name) (
    Returns-then
      (Returns-list (λ _. Unit {0}) _ (λ p _. Returns-block_param p) b.params h.params
        (All-Unit b.params))
      (Returns-then
        (Returns-list (λ i. ShortKind i.kind) _ Returns-instruction b.instructions h.instructions
          h.kinds)
        (Returns-terminator b.terminator h.terminator)))

Returns-function : (f : Function) → ShortFunction f → Returns (Encode.function f)
unfolding Encode.function
Returns-function f h =
    let params =
      Returns-list (λ _. Unit {0}) _ (λ p _. Returns-param p) f.params h.params
        (All-Unit f.params) in
    let values =
      Returns-list (λ _. Unit {0}) _ (λ v _. Returns-value v) f.values h.values
        (All-Unit f.values) in
    let blocks = Returns-list ShortBlock _ Returns-block f.blocks h.blocks h.each in
    Returns-then (Returns-u32 f.symbol) (
      Returns-then (Returns-u8 _) (
        Returns-then (Returns-abi f.abi) (
          Returns-then (Returns-bool f.variadic) (
            Returns-then (Returns-u32 f.result)
              (Returns-then params (Returns-then values blocks))))))

Returns-sections : (m : Module) → ShortModule m → Returns (sections m)
unfolding sections module_section symbol_section type_section constant_section function_section
Returns-sections m h =
    let symbols = Returns-table IsShort Writer.blob Returns-blob m.symbols h.symbols h.names in
    let types =
      Returns-table ShortType Tables.type_data Returns-type m.types h.types h.type_lists in
    let constants =
      Returns-table ShortConstant Tables.constant Returns-constant m.constants h.constants
        h.constant_lists in
    let functions =
      Returns-list ShortFunction Encode.function Returns-function m.functions h.functions
        h.function_lists in
    let versions : Returns (module_section m) = search (returns) in
    Returns-then (Returns-section _ versions) (
      Returns-then (Returns-section _ symbols) (
        Returns-then (Returns-section _ types)
          (Returns-then (Returns-section _ constants) (Returns-section _ functions))))

Returns-header : Returns header
unfolding header
Returns-header = search (returns, Returns-bytes)

-- `write` does not panic on a module whose lists, tables and names all have less than 2 ^ 32 entries.
pub write_total : (m : Module) → ShortModule m → (file : List ℕ) × (write m ≡ some file)
unfolding write
write_total m h =
    let (body, e) = (Returns-then Returns-header (Returns-sections m h)).on [] in
    let (file, e') = (Returns-u32 (crc32 body)).on body in (file, rw e e')
