-- ===== src/Verify/Terminators.antt =====
-- The terminators of a function (the first loop of `check_cfg`, src/verify/cfg.rs).
pub mod Laws
use astronomy.Prelude.{
  ℕ, ◌+◌, ◌%◌, ◌^◌, Bool, true, false, List, [], ◌∷◌, ◌++◌, Option, none, some, length, get_elem?,
  ◌==◌, if◌then◌else◌,
}
use astronomy.Ir.Types.{TypeId, TypeData, is_void, type_at}
use astronomy.Ir.Functions.{
  ValueId, BlockId, ValueData, BlockParam, BasicBlock, Terminator, Function,
}
use astronomy.Ir.Modules.{Name, Module}
use astronomy.Verify.Errors.{
  VerifyError, Returned, unknown_block, condition_not_i1, missing_terminator,
  block_arg_count_mismatch, block_arg_type_mismatch, return_mismatch,
}
use astronomy.Verify.Loops.{report_from}

-- `TypeId::I1`
abbrev pub i1_id : TypeId
i1_id = 1

abbrev pub arg_errors : Name → ℕ → ℕ → ℕ → Option ValueData → BlockParam → List VerifyError
arg_errors name from to i none param = []
arg_errors name from to i (some actual) param =
    if actual.ty == param.ty
    then []
    else block_arg_type_mismatch name from to i param.ty actual.ty ∷ []

-- `args.iter().zip(target.params.iter()).enumerate()`
unfoldable pub args_errors :
    List ValueData → Name → ℕ → ℕ → ℕ → List ValueId → List BlockParam → List VerifyError
args_errors values name from to i [] params = []
args_errors values name from to i (arg ∷ args) [] = []
args_errors values name from to i (arg ∷ args) (param ∷ params) =
    arg_errors name from to i (get_elem? values arg) param
    ++ args_errors values name from to (i + 1) args params

abbrev pub count_errors : Name → ℕ → ℕ → ℕ → ℕ → List VerifyError
count_errors name from to expected found =
    if expected == found then [] else block_arg_count_mismatch name from to expected found ∷ []

abbrev pub target_errors :
    List ValueData → Name → ℕ → ℕ → List ValueId → Option BasicBlock → List VerifyError
target_errors values name from to args none = unknown_block name to ∷ []
target_errors values name from to args (some target) =
    count_errors name from to (length target.params) (length args)
    ++ args_errors values name from to 0 args target.params

-- The closure `check_edge`.
unfoldable pub edge_errors : Function → Name → ℕ → BlockId → List ValueId → List VerifyError
edge_errors f name from to args = target_errors f.values name from to args (get_elem? f.blocks to)

abbrev pub condition_errors : Name → Option ValueData → List VerifyError
condition_errors name none = []
condition_errors name (some c) = if c.ty == i1_id then [] else condition_not_i1 name c.ty ∷ []

abbrev pub is_void_type : Option TypeData → Bool
is_void_type none = false
is_void_type (some d) = is_void d

abbrev pub type_of : Option ValueData → Option TypeId
type_of none = none
type_of (some d) = some d.ty

abbrev pub returned_errors : Function → Name → Option ValueData → List VerifyError
returned_errors f name none = []
returned_errors f name (some d) =
    if d.ty == f.result
    then []
    else return_mismatch name (Returned.of_type f.result) (Returned.of_type d.ty) ∷ []

abbrev pub return_errors : Function → Name → Bool → Option ValueId → List VerifyError
return_errors f name void (some v) =
    if void
    then return_mismatch name Returned.void (Returned.a_value_of (type_of (get_elem? f.values v)))
      ∷ []
    else returned_errors f name (get_elem? f.values v)
return_errors f name void none =
    if void then [] else return_mismatch name (Returned.of_type f.result) Returned.void ∷ []

unfoldable pub terminator_errors : Module → Function → Name → ℕ → Terminator → List VerifyError
terminator_errors m f name from (Terminator.jump target args) = edge_errors f name from target args
terminator_errors m f name from
      (Terminator.branch condition then_block then_args else_block else_args) =
    condition_errors name (get_elem? f.values condition)
    ++ edge_errors f name from then_block then_args
    ++ edge_errors f name from else_block else_args
terminator_errors m f name from (Terminator.return value) =
    return_errors f name (is_void_type (type_at m.types f.result)) value
terminator_errors m f name from Terminator.unreachable = []

abbrev pub opt_terminator_errors :
    Module → Function → Name → ℕ → Option Terminator → List VerifyError
opt_terminator_errors m f name from none = missing_terminator name from ∷ []
opt_terminator_errors m f name from (some t) = terminator_errors m f name from t

unfoldable pub block_errors : Module → Function → Name → ℕ → BasicBlock → List VerifyError
block_errors m f name bi block = opt_terminator_errors m f name (bi % 2 ^ 32) block.terminator

unfoldable pub check_terminators : Module → Function → Name → List VerifyError
check_terminators m f name = report_from (block_errors m f name) 0 f.blocks
