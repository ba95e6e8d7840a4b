-- ===== src/Arb/Encode/Functions.antt =====
-- Functions, blocks and instructions (`Writer::function`, `Writer::block` and
-- `Writer::instruction`, src/binary/writer.rs).
use astronomy.Prelude.{ℕ, Option, none, some, length}
use astronomy.Ir.Functions.{
  ValueKind, ValueData, InstructionKind, Instruction, BlockParam, Terminator, BasicBlock, Linkage,
  Abi, Param, Function, ValueId,
}
use astronomy.Ir.Types.{TypeId}
use astronomy.Arb.Writer.{Writer, ◌>>◌, u8, u32, bool, opt_u32, len, each, ids}
use astronomy.Arb.Tags.ValueTag
use astronomy.Arb.Tags.TermTag
use astronomy.Arb.Tags.Opcode

abbrev pub binary : ℕ → ValueId → ValueId → Writer
binary op lhs rhs = do u8 op; u32 lhs; u32 rhs

abbrev pub convert : ℕ → TypeId → ValueId → Writer
convert op to value = do u8 op; u32 to; u32 value

unfoldable pub instruction_kind : InstructionKind → Writer
instruction_kind (InstructionKind.const c) = do u8 Opcode.const; u32 c
instruction_kind (InstructionKind.add lhs rhs) = binary Opcode.add lhs rhs
instruction_kind (InstructionKind.sub lhs rhs) = binary Opcode.sub lhs rhs
instruction_kind (InstructionKind.mul lhs rhs) = binary Opcode.mul lhs rhs
instruction_kind (InstructionKind.div lhs rhs) = binary Opcode.div lhs rhs
instruction_kind (InstructionKind.rem lhs rhs) = binary Opcode.rem lhs rhs
instruction_kind (InstructionKind.and lhs rhs) = binary Opcode.and lhs rhs
instruction_kind (InstructionKind.or lhs rhs) = binary Opcode.or lhs rhs
instruction_kind (InstructionKind.xor lhs rhs) = binary Opcode.xor lhs rhs
instruction_kind (InstructionKind.shl lhs rhs) = binary Opcode.shl lhs rhs
instruction_kind (InstructionKind.shr lhs rhs) = binary Opcode.shr lhs rhs
instruction_kind (InstructionKind.eq lhs rhs) = binary Opcode.eq lhs rhs
instruction_kind (InstructionKind.ne lhs rhs) = binary Opcode.ne lhs rhs
instruction_kind (InstructionKind.lt lhs rhs) = binary Opcode.lt lhs rhs
instruction_kind (InstructionKind.le lhs rhs) = binary Opcode.le lhs rhs
instruction_kind (InstructionKind.gt lhs rhs) = binary Opcode.gt lhs rhs
instruction_kind (InstructionKind.ge lhs rhs) = binary Opcode.ge lhs rhs
instruction_kind (InstructionKind.alloca pointee) = do u8 Opcode.alloca; u32 pointee
instruction_kind (InstructionKind.load ty pointer) = do u8 Opcode.load; u32 ty; u32 pointer
instruction_kind (InstructionKind.store pointer value) = binary Opcode.store pointer value
instruction_kind (InstructionKind.ptr_offset pointer by) = binary Opcode.ptr_offset pointer by
instruction_kind (InstructionKind.ext to value) = convert Opcode.ext to value
instruction_kind (InstructionKind.trunc to value) = convert Opcode.trunc to value
instruction_kind (InstructionKind.int_to_float to value) = convert Opcode.int_to_float to value
instruction_kind (InstructionKind.float_to_int to value) = convert Opcode.float_to_int to value
instruction_kind (InstructionKind.ptr_cast to pointer) = convert Opcode.ptr_cast to pointer
instruction_kind (InstructionKind.call callee args) = do u8 Opcode.call; u32 callee; ids args
instruction_kind (InstructionKind.construct ty fields) = do u8 Opcode.construct; u32 ty; ids fields
instruction_kind (InstructionKind.extract aggregate index) = do
  u8 Opcode.extract
  u32 aggregate
  u32 index
instruction_kind (InstructionKind.insert aggregate index value) = do
  u8 Opcode.insert
  u32 aggregate
  u32 index
  u32 value

unfoldable pub instruction : Instruction → Writer
instruction i = do instruction_kind i.kind; opt_u32 i.result

unfoldable pub terminator : Option Terminator → Writer
terminator none = u8 TermTag.none
terminator (some (Terminator.jump target args)) = do u8 TermTag.jump; u32 target; ids args
terminator (some (Terminator.branch condition then_block then_args else_block else_args)) = do
  u8 TermTag.branch
  u32 condition
  u32 then_block
  ids then_args
  u32 else_block
  ids else_args
terminator (some (Terminator.return value)) = do u8 TermTag.return; opt_u32 value
terminator (some Terminator.unreachable) = u8 TermTag.unreachable

unfoldable pub block_param : BlockParam → Writer
block_param p = do u32 p.value; u32 p.ty

unfoldable pub block : BasicBlock → Writer
block b = do
  opt_u32 b.name
  (do len (length b.params); each block_param b.params)
  (do len (length b.instructions); each instruction b.instructions)
  terminator b.terminator

abbrev pub linkage : Linkage → ℕ
linkage Linkage.internal = 0
linkage Linkage.external = 1
linkage Linkage.exported = 2

unfoldable pub abi : Abi → Writer
abi Abi.astronomy_abi = u8 0
abi Abi.c = u8 1
abi Abi.system = u8 2
abi (Abi.custom symbol) = do u8 3; u32 symbol

unfoldable pub param : Param → Writer
param p = do u32 p.value; u32 p.ty

unfoldable pub value_kind : ValueKind → Writer
value_kind ValueKind.reserved = u8 ValueTag.reserved
value_kind (ValueKind.param index) = do u8 ValueTag.param; u32 index
value_kind (ValueKind.block_param block index) = do u8 ValueTag.block_param; u32 block; u32 index
value_kind (ValueKind.inst block index) = do u8 ValueTag.inst; u32 block; u32 index

unfoldable pub value : ValueData → Writer
value v = do u32 v.ty; value_kind v.kind; opt_u32 v.name

unfoldable pub function : Function → Writer
function f = do
  u32 f.symbol
  u8 (linkage f.linkage)
  abi f.abi
  bool f.variadic
  u32 f.result
  (do len (length f.params); each param f.params)
  (do len (length f.values); each value f.values)
  (do len (length f.blocks); each block f.blocks)
