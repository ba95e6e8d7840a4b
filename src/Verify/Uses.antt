-- ===== src/Verify/Uses.antt =====
-- The uses of values (`UseChecker` and the second loop of `check_cfg`, src/verify/cfg.rs). `none` is
-- where a walk up the dominator tree has too little fuel.
pub mod Total
pub mod Available
pub mod Sound
use astronomy.Prelude.{
  ℕ, ◌+◌, ◌-◌, ◌%◌, ◌^◌, min, Bool, true, false, List, [], ◌∷◌, ◌++◌, Option, none, some, length,
  get_elem?, ltb, ◌==◌, if◌then◌else◌,
}
use mathlib.Core.Option.{bind}
use astronomy.Prelude.Arrays.{at_or}
use astronomy.Ir.Functions.{
  ValueId, BlockId, ValueKind, ValueData, Instruction, BasicBlock, Terminator, Function,
}
use astronomy.Ir.Modules.{Name, Module}
use astronomy.Ir.Visits.{kind_values, terminator_values}
use astronomy.Verify.Errors.{VerifyError, use_not_dominated}
use astronomy.Verify.Loops.{collect_from, collect}
use astronomy.Verify.Dominators.{CfgInfo, compute, dominates}
use astronomy.Verify.Terminators.{check_terminators}

unfoldable pub strictly_dominates : CfgInfo → BlockId → BlockId → Option Bool
strictly_dominates info a b = if a == b then some false else dominates info a b

-- The terminator of a block stands behind its instructions. Positions wrap, as in a release build;
-- a debug build panics instead at a block of 2 ^ 32 - 1 instructions.
abbrev pub use_pos : BasicBlock → ℕ
use_pos block = (length block.instructions % 2 ^ 32 + 1) % 2 ^ 32

-- A parameter of the block stands in front of the instructions. `index.saturating_add(1)`
abbrev pub def_pos : ValueKind → Option (BlockId × ℕ)
def_pos (ValueKind.block_param block index) = some (block, 0)
def_pos (ValueKind.inst block index) = some (block, min (index + 1) (2 ^ 32 - 1))
def_pos (ValueKind.param index) = none
def_pos ValueKind.reserved = none

abbrev pub not_dominated : Name → ValueId → BlockId → BlockId → Bool → List VerifyError
not_dominated name v ub db ok =
    if ok then [] else use_not_dominated name v (ub % 2 ^ 32) (db % 2 ^ 32) ∷ []

-- Whether the definition comes before the use.
abbrev pub is_before : CfgInfo → BlockId → ℕ → BlockId → ℕ → Option Bool
is_before info ub pos db dpos =
    if db == ub then some (ltb dpos pos) else strictly_dominates info db ub

abbrev pub reachable_errors :
    CfgInfo → Name → ValueId → BlockId → ℕ → BlockId → ℕ → Option Bool → Option (List VerifyError)
reachable_errors info name v ub pos db dpos none = some []
reachable_errors info name v ub pos db dpos (some false) = some (not_dominated name v ub db false)
reachable_errors info name v ub pos db dpos (some true) =
    bind (is_before info ub pos db dpos) (λ ok. some (not_dominated name v ub db ok))

abbrev pub defined_errors :
    CfgInfo → Name → ValueId → BlockId → ℕ → Option (BlockId × ℕ) → Option (List VerifyError)
defined_errors info name v ub pos none = some []
defined_errors info name v ub pos (some (db, dpos)) =
    if at_or false info.reachable ub
    then reachable_errors info name v ub pos db dpos (get_elem? info.reachable db)
    else some []

abbrev pub value_errors :
    CfgInfo → Name → ValueId → BlockId → ℕ → Option ValueData → Option (List VerifyError)
value_errors info name v ub pos none = some []
value_errors info name v ub pos (some value) =
    defined_errors info name v ub pos (def_pos value.kind)

-- `UseChecker::check`
unfoldable pub check_use :
    Function → Name → CfgInfo → BlockId → ℕ → ValueId → Option (List VerifyError)
check_use f name info ub pos v = value_errors info name v ub pos (get_elem? f.values v)

unfoldable pub instruction_uses :
    Function → Name → CfgInfo → BlockId → ℕ → Instruction → Option (List VerifyError)
instruction_uses f name info bid ii inst =
    collect (check_use f name info bid ((ii % 2 ^ 32 + 1) % 2 ^ 32)) (kind_values inst.kind)

abbrev pub terminator_uses :
    Function → Name → CfgInfo → BlockId → ℕ → Option Terminator → Option (List VerifyError)
terminator_uses f name info bid pos none = some []
terminator_uses f name info bid pos (some t) =
    collect (check_use f name info bid pos) (terminator_values t)

unfoldable pub block_uses : Function → Name → CfgInfo → ℕ → BasicBlock → Option (List VerifyError)
block_uses f name info bi block =
    bind (collect_from (instruction_uses f name info (bi % 2 ^ 32)) 0 block.instructions) (λ errors.
      bind (terminator_uses f name info (bi % 2 ^ 32) (use_pos block) block.terminator)
        (λ more. some (errors ++ more)))

unfoldable pub check_uses : Function → Name → CfgInfo → Option (List VerifyError)
check_uses f name info = collect_from (block_uses f name info) 0 f.blocks

-- The errors that `check_cfg` pushes, in order.
unfoldable pub check_cfg : Module → Function → Name → Option (List VerifyError)
check_cfg m f name =
    bind (compute f) (λ info.
      bind (check_uses f name info) (λ errors. some (check_terminators m f name ++ errors)))
