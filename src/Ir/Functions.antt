-- ===== src/Ir/Functions.antt =====
-- Values, instructions, blocks and functions (src/value.rs, src/instruction.rs, src/block.rs,
-- src/function.rs, src/span.rs). Ids are `u32` numbers (src/id.rs).
use astronomy.Prelude.{ℕ, Bool, List, Option}
use astronomy.Ir.Types.{TypeId}
use astronomy.Ir.Constants.{ConstantId}

abbrev pub SymbolId : Type 0
SymbolId = ℕ

abbrev pub ValueId : Type 0
ValueId = ℕ

abbrev pub BlockId : Type 0
BlockId = ℕ

abbrev pub FunctionId : Type 0
FunctionId = ℕ

pub record Span : Type 0 where
  pub line : ℕ
  pub col : ℕ

pub data ValueKind : Type 0 where
  reserved : ValueKind
  param : (index : ℕ) → ValueKind
  block_param : (block : BlockId) (index : ℕ) → ValueKind
  inst : (block : BlockId) (index : ℕ) → ValueKind

pub record ValueData : Type 0 where
  pub ty : TypeId
  pub kind : ValueKind
  pub name : Option SymbolId
  pub span : Option Span

pub data InstructionKind : Type 0 where
  const : ConstantId → InstructionKind
  add sub mul div rem : (lhs rhs : ValueId) → InstructionKind
  and or xor shl shr : (lhs rhs : ValueId) → InstructionKind
  eq ne lt le gt ge : (lhs rhs : ValueId) → InstructionKind
  alloca : (pointee : TypeId) → InstructionKind
  load : (ty : TypeId) (pointer : ValueId) → InstructionKind
  store : (pointer value : ValueId) → InstructionKind
  ptr_offset : (pointer offset : ValueId) → InstructionKind
  ext trunc int_to_float float_to_int : (to : TypeId) (value : ValueId) → InstructionKind
  ptr_cast : (to : TypeId) (pointer : ValueId) → InstructionKind
  call : (callee : FunctionId) (args : List ValueId) → InstructionKind
  construct : (ty : TypeId) (fields : List ValueId) → InstructionKind
  extract : (aggregate : ValueId) (index : ℕ) → InstructionKind
  insert : (aggregate : ValueId) (index : ℕ) (value : ValueId) → InstructionKind

pub record Instruction : Type 0 where
  pub kind : InstructionKind
  pub result : Option ValueId
  pub span : Option Span

pub record BlockParam : Type 0 where
  pub value : ValueId
  pub ty : TypeId

pub data Terminator : Type 0 where
  jump : (target : BlockId) (args : List ValueId) → Terminator
  branch :
      (condition : ValueId) (then_block : BlockId) (then_args : List ValueId) (else_block : BlockId)
      (else_args : List ValueId)
      → Terminator
  return : (value : Option ValueId) → Terminator
  unreachable : Terminator

pub record BasicBlock : Type 0 where
  pub params : List BlockParam
  pub instructions : List Instruction
  pub terminator : Option Terminator
  pub name : Option SymbolId
  pub span : Option Span

pub data Linkage : Type 0 where
  internal external exported : Linkage

pub data Abi : Type 0 where
  astronomy_abi c system : Abi
  custom : SymbolId → Abi

pub record Param : Type 0 where
  pub value : ValueId
  pub ty : TypeId

pub record Function : Type 0 where
  pub symbol : SymbolId
  pub linkage : Linkage
  pub abi : Abi
  pub params : List Param
  pub result : TypeId
  pub variadic : Bool
  pub blocks : List BasicBlock
  pub values : List ValueData
  pub span : Option Span
