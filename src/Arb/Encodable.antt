-- ===== src/Arb/Encodable.antt =====
-- What `.arb` requires of a module: every field fits its Rust type, and what `read` checks holds.
use astronomy.Prelude.{
  ℕ, ◌<◌, ◌≤◌, ◌^◌, ◌≡◌, ◌≢◌, true, Option, none, some, All, length, get_elem?, take, map,
}
use astronomy.Ir.Interner.{Store}
use astronomy.Ir.Interner.Laws.{IsInterned}
use astronomy.Arb.Bytes.{IsU32, IsOptU32}
use astronomy.Ir.Types.{TypeData, scalars}
use astronomy.Ir.Constants.{ConstantData}
use astronomy.Ir.Functions.{
  ValueKind, ValueData, InstructionKind, Instruction, BlockParam, Terminator, BasicBlock, Abi,
  Param, Function,
}
use astronomy.Ir.Modules.{Module, supported_major}
use astronomy.Arb.Decode.Utf8.{is_utf8}

-- Entry `index` of a type table: widths are 1..=128, `i1` is unsigned, and a type is made of types
-- that stand before it.
abbrev pub IsType : ℕ → TypeData → Type 0
IsType index TypeData.void = Unit {0}
IsType index (TypeData.int bits signed) = (1 ≤ bits) × (bits ≤ 128) × (signed ≡ true → bits ≢ 1)
IsType index (TypeData.float kind) = Unit {0}
IsType index (TypeData.pointer pointee address_space) = (pointee < index) × IsU32 address_space
IsType index (TypeData.array element count) = (element < index) × (count < 2 ^ 64)
IsType index (TypeData.struct fields) = All (λ f. f < index) fields
IsType index (TypeData.function params variadic result) =
    All (λ p. p < index) params × (result < index)

-- An integer constant is stored masked to its width.
abbrev pub IsConstant : ConstantData → Type 0
IsConstant (ConstantData.int ty width bits) =
    IsU32 ty × (1 ≤ width) × (width ≤ 128) × (bits < 2 ^ width)
IsConstant (ConstantData.float ty bits) = IsU32 ty × (bits < 2 ^ 64)
IsConstant (ConstantData.null pointee) = IsU32 pointee
IsConstant (ConstantData.string bytes) = Unit {0}
IsConstant (ConstantData.aggregate ty elements) = IsU32 ty × All IsU32 elements

abbrev pub IsKind : InstructionKind → Type 0
IsKind (InstructionKind.const c) = IsU32 c
IsKind (InstructionKind.alloca pointee) = IsU32 pointee
IsKind (InstructionKind.call callee args) = IsU32 callee × All IsU32 args
IsKind (InstructionKind.construct ty fields) = IsU32 ty × All IsU32 fields
IsKind (InstructionKind.insert aggregate index value) = IsU32 aggregate × IsU32 index × IsU32 value
IsKind (InstructionKind.extract aggregate index) = IsU32 aggregate × IsU32 index
IsKind (InstructionKind.add a b) = IsU32 a × IsU32 b
IsKind (InstructionKind.sub a b) = IsU32 a × IsU32 b
IsKind (InstructionKind.mul a b) = IsU32 a × IsU32 b
IsKind (InstructionKind.div a b) = IsU32 a × IsU32 b
IsKind (InstructionKind.rem a b) = IsU32 a × IsU32 b
IsKind (InstructionKind.and a b) = IsU32 a × IsU32 b
IsKind (InstructionKind.or a b) = IsU32 a × IsU32 b
IsKind (InstructionKind.xor a b) = IsU32 a × IsU32 b
IsKind (InstructionKind.shl a b) = IsU32 a × IsU32 b
IsKind (InstructionKind.shr a b) = IsU32 a × IsU32 b
IsKind (InstructionKind.eq a b) = IsU32 a × IsU32 b
IsKind (InstructionKind.ne a b) = IsU32 a × IsU32 b
IsKind (InstructionKind.lt a b) = IsU32 a × IsU32 b
IsKind (InstructionKind.le a b) = IsU32 a × IsU32 b
IsKind (InstructionKind.gt a b) = IsU32 a × IsU32 b
IsKind (InstructionKind.ge a b) = IsU32 a × IsU32 b
IsKind (InstructionKind.load a b) = IsU32 a × IsU32 b
IsKind (InstructionKind.store a b) = IsU32 a × IsU32 b
IsKind (InstructionKind.ptr_offset a b) = IsU32 a × IsU32 b
IsKind (InstructionKind.ext a b) = IsU32 a × IsU32 b
IsKind (InstructionKind.trunc a b) = IsU32 a × IsU32 b
IsKind (InstructionKind.int_to_float a b) = IsU32 a × IsU32 b
IsKind (InstructionKind.float_to_int a b) = IsU32 a × IsU32 b
IsKind (InstructionKind.ptr_cast a b) = IsU32 a × IsU32 b

pub record IsInstruction (i : Instruction) : Type 0 where
  pub kind : IsKind i.kind
  pub result : IsOptU32 i.result

abbrev pub IsTerminator : Option Terminator → Type 0
IsTerminator none = Unit {0}
IsTerminator (some (Terminator.jump target args)) = IsU32 target × All IsU32 args
IsTerminator (some (Terminator.branch c t ts e es)) =
    IsU32 c × IsU32 t × All IsU32 ts × IsU32 e × All IsU32 es
IsTerminator (some (Terminator.return value)) = IsOptU32 value
IsTerminator (some Terminator.unreachable) = Unit {0}

abbrev pub IsBlockParam : BlockParam → Type 0
IsBlockParam p = IsU32 p.value × IsU32 p.ty

abbrev pub IsParam : Param → Type 0
IsParam p = IsU32 p.value × IsU32 p.ty

abbrev pub IsValueKind : ValueKind → Type 0
IsValueKind ValueKind.reserved = Unit {0}
IsValueKind (ValueKind.param index) = IsU32 index
IsValueKind (ValueKind.block_param block index) = IsU32 block × IsU32 index
IsValueKind (ValueKind.inst block index) = IsU32 block × IsU32 index

-- `symbols` is the number of entries of the symbol table.
abbrev pub IsOptSymbol : ℕ → Option ℕ → Type 0
IsOptSymbol symbols none = Unit {0}
IsOptSymbol symbols (some id) = id < symbols

abbrev pub IsAbi : ℕ → Abi → Type 0
IsAbi symbols (Abi.custom id) = id < symbols
IsAbi symbols _ = Unit {0}

pub record IsValue (symbols : ℕ) (v : ValueData) : Type 0 where
  pub ty : IsU32 v.ty
  pub kind : IsValueKind v.kind
  pub name : IsOptSymbol symbols v.name

pub record IsBlock (symbols : ℕ) (b : BasicBlock) : Type 0 where
  pub params : All IsBlockParam b.params
  pub instructions : All IsInstruction b.instructions
  pub terminator : IsTerminator b.terminator
  pub name : IsOptSymbol symbols b.name

pub record IsFunction (symbols : ℕ) (f : Function) : Type 0 where
  pub symbol : f.symbol < symbols
  pub abi : IsAbi symbols f.abi
  pub params : All IsParam f.params
  pub result : IsU32 f.result
  pub values : All (IsValue symbols) f.values
  pub blocks : All (IsBlock symbols) f.blocks

-- Source spans are not stored.
unfoldable pub strip_instruction : Instruction → Instruction
strip_instruction i = record i { span = none }

unfoldable pub strip_value : ValueData → ValueData
strip_value v = record v { span = none }

unfoldable pub strip_block : BasicBlock → BasicBlock
strip_block b = record b { instructions = map strip_instruction b.instructions; span = none }

unfoldable pub strip_function : Function → Function
strip_function f = record f {
  blocks = map strip_block f.blocks;
  values = map strip_value f.values;
  span = none;
}

unfoldable pub strip_spans : Module → Module
strip_spans m = record m { functions = map strip_function m.functions }

-- A table in memory: no entry twice, and ids that fit `u32`.
abbrev pub IsTable : {A : Type 0} → Store A → Type 0
IsTable s = IsInterned s × (length s.entries < 2 ^ 32)

-- The modules that `.arb` represents.
pub record IsEncodable (m : Module) : Type 0 where
  pub major : m.version.major ≡ supported_major
  pub minor : IsU32 m.version.minor
  pub name : IsOptSymbol (length m.symbols.entries) m.name
  pub symbols : IsTable m.symbols
  pub utf8 : All (λ name. is_utf8 name ≡ true) m.symbols.entries
  pub types : IsTable m.types
  pub prefix : take (length scalars) m.types.entries ≡ scalars
  pub well_founded : (i : ℕ) (t : TypeData) → get_elem? m.types.entries i ≡ some t → IsType i t
  pub constants : IsTable m.constants
  pub masked : All IsConstant m.constants.entries
  pub functions : All (IsFunction (length m.symbols.entries)) m.functions
