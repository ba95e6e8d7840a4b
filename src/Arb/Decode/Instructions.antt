-- ===== src/Arb/Decode/Instructions.antt =====
-- Instructions and terminators (`read_instruction` and `read_terminator`, src/binary/reader.rs).
use astronomy.Prelude.{ℕ, ◌&&◌, Option, none, some, leb, ◌==◌, String, if◌then◌else◌}
use astronomy.Ir.Functions.{ValueId, InstructionKind, Instruction, Terminator}
use astronomy.Arb.Errors.{invalid_tag}
use astronomy.Arb.Cursor.{Reader, pure, fail, ◌>>=◌, offset, u8, u32, opt_u32, values}
use astronomy.Arb.Tags.TermTag
use astronomy.Arb.Tags.Opcode

-- Two operands that are read the same way, and what they make.
abbrev pub operands : (ℕ → ℕ → InstructionKind) → String → String → Reader InstructionKind
operands make first second = do a ← u32 first; b ← u32 second; pure (make a b)

abbrev pub binary_kind : ℕ → ValueId → ValueId → InstructionKind
binary_kind op =
    if op == Opcode.add
    then InstructionKind.add
    else if op == Opcode.sub
    then InstructionKind.sub
    else if op == Opcode.mul
    then InstructionKind.mul
    else if op == Opcode.div
    then InstructionKind.div
    else if op == Opcode.rem
    then InstructionKind.rem
    else if op == Opcode.and
    then InstructionKind.and
    else if op == Opcode.or
    then InstructionKind.or
    else if op == Opcode.xor
    then InstructionKind.xor
    else if op == Opcode.shl
    then InstructionKind.shl
    else if op == Opcode.shr
    then InstructionKind.shr
    else if op == Opcode.eq
    then InstructionKind.eq
    else if op == Opcode.ne
    then InstructionKind.ne
    else if op == Opcode.lt
    then InstructionKind.lt
    else if op == Opcode.le
    then InstructionKind.le
    else if op == Opcode.gt
    then InstructionKind.gt
    else InstructionKind.ge

-- The kinds after the binary ones.
unfoldable pub other_kind : ℕ → ℕ → Reader InstructionKind
other_kind at op =
    if op == Opcode.alloca
    then (do ty ← u32 "type operand"; pure (InstructionKind.alloca ty))
    else if op == Opcode.load
    then operands InstructionKind.load "type operand" "operand"
    else if op == Opcode.store
    then operands InstructionKind.store "operand" "operand"
    else if op == Opcode.ptr_offset
    then operands InstructionKind.ptr_offset "operand" "operand"
    else if op == Opcode.ext
    then operands InstructionKind.ext "type operand" "operand"
    else if op == Opcode.trunc
    then operands InstructionKind.trunc "type operand" "operand"
    else if op == Opcode.int_to_float
    then operands InstructionKind.int_to_float "type operand" "operand"
    else if op == Opcode.float_to_int
    then operands InstructionKind.float_to_int "type operand" "operand"
    else if op == Opcode.ptr_cast
    then operands InstructionKind.ptr_cast "type operand" "operand"
    else if op == Opcode.call
    then (do
      callee ← u32 "callee"
      args ← values "call arguments"
      pure (InstructionKind.call callee args))
    else if op == Opcode.construct
    then (do
      ty ← u32 "type operand"
      fields ← values "construct fields"
      pure (InstructionKind.construct ty fields))
    else if op == Opcode.extract
    then operands InstructionKind.extract "operand" "field index"
    else if op == Opcode.insert
    then (do
      aggregate ← u32 "operand"
      index ← u32 "field index"
      value ← u32 "operand"
      pure (InstructionKind.insert aggregate index value))
    else fail (invalid_tag at "opcode" op)

unfoldable pub read_kind : ℕ → ℕ → Reader InstructionKind
read_kind at op =
    if op == Opcode.const
    then (do c ← u32 "constant operand"; pure (InstructionKind.const c))
    else if leb Opcode.add op && leb op Opcode.ge
    then operands (binary_kind op) "operand" "operand"
    else other_kind at op

unfoldable pub read_instruction_kind : Reader InstructionKind
read_instruction_kind = do at ← offset; op ← u8 "opcode"; read_kind at op

unfoldable pub read_instruction : Reader Instruction
read_instruction = do
  kind ← read_instruction_kind
  result ← opt_u32 "instruction result"
  pure (record { kind = kind; result = result; span = none })

unfoldable pub read_branch : Reader (Option Terminator)
read_branch = do
  condition ← u32 "branch condition"
  then_block ← u32 "branch target"
  then_args ← values "branch arguments"
  else_block ← u32 "branch target"
  else_args ← values "branch arguments"
  pure (some (Terminator.branch condition then_block then_args else_block else_args))

unfoldable pub terminator_body : ℕ → ℕ → Reader (Option Terminator)
terminator_body at tag =
    if tag == TermTag.none
    then pure none
    else if tag == TermTag.jump
    then (do
      target ← u32 "jump target"
      args ← values "jump arguments"
      pure (some (Terminator.jump target args)))
    else if tag == TermTag.branch
    then read_branch
    else if tag == TermTag.return
    then (do value ← opt_u32 "return value"; pure (some (Terminator.return value)))
    else if tag == TermTag.unreachable
    then pure (some Terminator.unreachable)
    else fail (invalid_tag at "terminator" tag)

unfoldable pub read_terminator : Reader (Option Terminator)
read_terminator = do at ← offset; tag ← u8 "terminator tag"; terminator_body at tag
