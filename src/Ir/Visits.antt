-- ===== src/Ir/Visits.antt =====
-- What an instruction and a terminator refer to (`visit_values` and `visit_targets`,
-- src/instruction.rs and src/block.rs): the arguments of the calls of `f`, in their order.
use astronomy.Prelude.{List, [], ◌∷◌, ◌++◌, Option, none, some}
use astronomy.Ir.Functions.{ValueId, BlockId, InstructionKind, Terminator}

unfoldable pub kind_values : InstructionKind → List ValueId
kind_values (InstructionKind.const c) = []
kind_values (InstructionKind.alloca pointee) = []
kind_values (InstructionKind.load ty pointer) = pointer ∷ []
kind_values (InstructionKind.ptr_cast to pointer) = pointer ∷ []
kind_values (InstructionKind.extract aggregate index) = aggregate ∷ []
kind_values (InstructionKind.store pointer value) = pointer ∷ value ∷ []
kind_values (InstructionKind.ptr_offset pointer by) = pointer ∷ by ∷ []
kind_values (InstructionKind.ext to value) = value ∷ []
kind_values (InstructionKind.trunc to value) = value ∷ []
kind_values (InstructionKind.int_to_float to value) = value ∷ []
kind_values (InstructionKind.float_to_int to value) = value ∷ []
kind_values (InstructionKind.call callee args) = args
kind_values (InstructionKind.construct ty fields) = fields
kind_values (InstructionKind.insert aggregate index value) = aggregate ∷ value ∷ []
kind_values (InstructionKind.add a b) = a ∷ b ∷ []
kind_values (InstructionKind.sub a b) = a ∷ b ∷ []
kind_values (InstructionKind.mul a b) = a ∷ b ∷ []
kind_values (InstructionKind.div a b) = a ∷ b ∷ []
kind_values (InstructionKind.rem a b) = a ∷ b ∷ []
kind_values (InstructionKind.and a b) = a ∷ b ∷ []
kind_values (InstructionKind.or a b) = a ∷ b ∷ []
kind_values (InstructionKind.xor a b) = a ∷ b ∷ []
kind_values (InstructionKind.shl a b) = a ∷ b ∷ []
kind_values (InstructionKind.shr a b) = a ∷ b ∷ []
kind_values (InstructionKind.eq a b) = a ∷ b ∷ []
kind_values (InstructionKind.ne a b) = a ∷ b ∷ []
kind_values (InstructionKind.lt a b) = a ∷ b ∷ []
kind_values (InstructionKind.le a b) = a ∷ b ∷ []
kind_values (InstructionKind.gt a b) = a ∷ b ∷ []
kind_values (InstructionKind.ge a b) = a ∷ b ∷ []

abbrev pub opt_value : Option ValueId → List ValueId
opt_value none = []
opt_value (some v) = v ∷ []

unfoldable pub terminator_values : Terminator → List ValueId
terminator_values (Terminator.jump target args) = args
terminator_values (Terminator.branch condition then_block then_args else_block else_args) =
    condition ∷ then_args ++ else_args
terminator_values (Terminator.return value) = opt_value value
terminator_values Terminator.unreachable = []

unfoldable pub terminator_targets : Terminator → List BlockId
terminator_targets (Terminator.jump target args) = target ∷ []
terminator_targets (Terminator.branch condition then_block then_args else_block else_args) =
    then_block ∷ else_block ∷ []
terminator_targets (Terminator.return value) = []
terminator_targets Terminator.unreachable = []
