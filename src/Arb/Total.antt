-- ===== src/Arb/Total.antt =====
-- `write` panics on a list of 2 ^ 32 entries or more and on nothing else: where lists are shorter, it returns.
pub mod Returns
pub mod Modules
use astronomy.Prelude.{ℕ, ◌<◌, ◌^◌, List, Option, none, some, length, All}
use astronomy.Ir.Types.{TypeData}
use astronomy.Ir.Constants.{ConstantData}
use astronomy.Ir.Functions.{InstructionKind, Terminator, BasicBlock, Function}
use astronomy.Ir.Modules.{Module}

-- A length that `u32::try_from` takes.
abbrev pub IsShort {ℓ} : {A : Type ℓ} → List A → Type 0
IsShort xs = length xs < 2 ^ 32

abbrev pub ShortType : TypeData → Type 0
ShortType (TypeData.struct fields) = IsShort fields
ShortType (TypeData.function params variadic result) = IsShort params
ShortType _ = Unit {0}

abbrev pub ShortConstant : ConstantData → Type 0
ShortConstant (ConstantData.string bytes) = IsShort bytes
ShortConstant (ConstantData.aggregate ty elements) = IsShort elements
ShortConstant _ = Unit {0}

abbrev pub ShortKind : InstructionKind → Type 0
ShortKind (InstructionKind.call callee args) = IsShort args
ShortKind (InstructionKind.construct ty fields) = IsShort fields
ShortKind _ = Unit {0}

abbrev pub ShortTerminator : Option Terminator → Type 0
ShortTerminator (some (Terminator.jump target args)) = IsShort args
ShortTerminator (some (Terminator.branch c t ts e es)) = IsShort ts × IsShort es
ShortTerminator _ = Unit {0}

pub record ShortBlock (b : BasicBlock) : Type 0 where
  pub params : IsShort b.params
  pub instructions : IsShort b.instructions
  pub kinds : All (λ i. ShortKind i.kind) b.instructions
  pub terminator : ShortTerminator b.terminator

pub record ShortFunction (f : Function) : Type 0 where
  pub params : IsShort f.params
  pub values : IsShort f.values
  pub blocks : IsShort f.blocks
  pub each : All ShortBlock f.blocks

pub record ShortModule (m : Module) : Type 0 where
  pub symbols : IsShort m.symbols.entries
  pub names : All IsShort m.symbols.entries
  pub types : IsShort m.types.entries
  pub type_lists : All ShortType m.types.entries
  pub constants : IsShort m.constants.entries
  pub constant_lists : All ShortConstant m.constants.entries
  pub functions : IsShort m.functions
  pub function_lists : All ShortFunction m.functions
