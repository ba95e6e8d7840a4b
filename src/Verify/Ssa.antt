-- ===== src/Verify/Ssa.antt =====
-- Single definition (src/verify/ssa.rs): every value is defined once, where its kind says.
pub mod Grows
pub mod Scanned
pub mod Form
pub mod Sound
use astronomy.Prelude.{
  ℕ, ◌+◌, ◌%◌, ◌^◌, Bool, true, false, List, [], ◌∷◌, ◌++◌, Option, none, some, length, get_elem?,
  ltb, leb, ◌==◌, ◌&&◌, not, if◌then◌else◌,
}
use astronomy.Ir.Functions.{
  ValueId, BlockId, ValueKind, ValueData, Instruction, BlockParam, BasicBlock, Param, Function,
}
use astronomy.Ir.Modules.{Name}
use astronomy.Verify.Errors.{
  VerifyError, DefSite, Reason, unknown_value, value_redefined, undefined_value,
  inconsistent_definition, invalid_signature,
}
use astronomy.Verify.Loops.{each_from, report_from}

-- `defined` is the `HashMap`, as the function that its `get` computes.
pub record Scan : Type 0 where
  pub defined : ℕ → Option DefSite
  pub errors : List VerifyError

abbrev pub push : VerifyError → Scan → Scan
push e s = record s { errors = s.errors ++ (e ∷ []) }

-- `HashMap::insert`
abbrev pub insert : ℕ → DefSite → (ℕ → Option DefSite) → ℕ → Option DefSite
insert value site defined v = if value == v then some site else defined v

-- The closure `record`.
unfoldable pub record_site : Name → ℕ → DefSite → Scan → Scan
record_site name value site s = elim (s.defined value) [
  | some first ↦ push (value_redefined name value first site) s
  | none ↦ record s { defined = insert value site s.defined }
]

unfoldable pub scan_param : Name → ℕ → Param → Scan → Scan
scan_param name i p s = record_site name p.value (DefSite.function_param i) (
    if p.value == i
    then s
    else push (inconsistent_definition name p.value (Reason.not_own_index i p.value)) s)

unfoldable pub scan_block_param : Name → ℕ → ℕ → BlockParam → Scan → Scan
scan_block_param name bi pi param s = record_site name param.value (DefSite.block_param bi pi) s

unfoldable pub scan_result : Name → ℕ → ℕ → ℕ → ℕ → Scan → Scan
scan_result name values bi ii result s =
    if leb values result
    then push (unknown_value name result) s
    else record_site name result (DefSite.inst bi ii) s

unfoldable pub scan_instruction : Name → ℕ → ℕ → ℕ → Instruction → Scan → Scan
scan_instruction name values bi ii inst s = elim inst.result [
  | some result ↦ scan_result name values bi ii result s
  | none ↦ s
]

unfoldable pub scan_block : Name → ℕ → ℕ → BasicBlock → Scan → Scan
scan_block name values bi block s =
    each_from (scan_instruction name values bi) 0 block.instructions
      (each_from (scan_block_param name bi) 0 block.params s)

-- An arena that is smaller than the list of parameters.
unfoldable pub arena_errors : Function → Name → List VerifyError
arena_errors f name =
    if ltb (length f.values) (length f.params)
    then invalid_signature name (Reason.arena_too_small (length f.values) (length f.params)) ∷ []
    else []

-- The definitions, in the order of the source's loops.
unfoldable pub scan_definitions : Function → Name → Scan
scan_definitions f name = each_from (scan_block name (length f.values)) 0 f.blocks (
    each_from (scan_param name) 0 f.params
      (record { defined = λ v. none; errors = arena_errors f name }))

-- `matches!(defined.get(&vi), Some(FunctionParam(i)) if *index == *i)`
abbrev pub is_param_site : Option DefSite → ℕ → Bool
is_param_site (some (DefSite.function_param i)) index = index == i
is_param_site _ index = false

abbrev pub registered_errors : Name → Scan → ℕ → ℕ → List VerifyError
registered_errors name s vi index =
    if is_param_site (s.defined vi) index
    then []
    else inconsistent_definition name vi Reason.not_registered ∷ []

abbrev pub declared_errors : Name → ℕ → ValueData → Param → List VerifyError
declared_errors name vi value declared =
    if declared.value == vi && declared.ty == value.ty
    then []
    else inconsistent_definition name vi Reason.param_type_disagrees ∷ []

abbrev pub claimed_param_errors :
    Function → Name → Scan → ℕ → ValueData → ℕ → Option Param → List VerifyError
claimed_param_errors f name s vi value index (some declared) =
    registered_errors name s vi index ++ declared_errors name vi value declared
claimed_param_errors f name s vi value index none =
    inconsistent_definition name vi (Reason.no_such_param index (length f.params)) ∷ []

unfoldable pub param_kind_errors : Function → Name → Scan → ℕ → ValueData → ℕ → List VerifyError
param_kind_errors f name s vi value index =
    claimed_param_errors f name s vi value index (get_elem? f.params index)

abbrev pub param_of : Option BasicBlock → ℕ → Option BlockParam
param_of (some b) index = get_elem? b.params index
param_of none index = none

-- `f.blocks.get(block).and_then(|b| b.params.get(index))`
abbrev pub block_param_at : Function → ℕ → ℕ → Option BlockParam
block_param_at f block index = param_of (get_elem? f.blocks block) index

abbrev pub instruction_of : Option BasicBlock → ℕ → Option Instruction
instruction_of (some b) index = get_elem? b.instructions index
instruction_of none index = none

-- `f.blocks.get(block).and_then(|b| b.instructions.get(index))`
abbrev pub instruction_at : Function → ℕ → ℕ → Option Instruction
instruction_at f block index = instruction_of (get_elem? f.blocks block) index

abbrev pub slot_errors : Name → ℕ → ValueData → ℕ → ℕ → Option BlockParam → List VerifyError
slot_errors name vi value block index none =
    inconsistent_definition name vi (Reason.block_param_elsewhere index block) ∷ []
slot_errors name vi value block index (some p) =
    if p.value == vi
    then (if p.ty == value.ty
        then []
        else inconsistent_definition name vi Reason.block_param_type_disagrees ∷ [])
    else inconsistent_definition name vi (Reason.block_param_elsewhere index block) ∷ []

unfoldable pub block_param_kind_errors : Function → Name → ℕ → ValueData → ℕ → ℕ → List VerifyError
block_param_kind_errors f name vi value block index =
    slot_errors name vi value block index (block_param_at f block index)

abbrev pub is_value : Option ℕ → ℕ → Bool
is_value (some r) vi = r == vi
is_value none vi = false

-- `.map(|inst| inst.result == Some(..)).unwrap_or(false)`
abbrev pub is_result : Option Instruction → ℕ → Bool
is_result none vi = false
is_result (some inst) vi = is_value inst.result vi

unfoldable pub inst_kind_errors : Function → Name → ℕ → ℕ → ℕ → List VerifyError
inst_kind_errors f name vi block index =
    if is_result (instruction_at f block index) vi
    then []
    else inconsistent_definition name vi (Reason.result_elsewhere index block) ∷ []

unfoldable pub kind_errors : Function → Name → Scan → ℕ → ValueData → ValueKind → List VerifyError
kind_errors f name s vi value ValueKind.reserved = undefined_value name vi ∷ []
kind_errors f name s vi value (ValueKind.param index) = param_kind_errors f name s vi value index
kind_errors f name s vi value (ValueKind.block_param block index) =
    block_param_kind_errors f name vi value block index
kind_errors f name s vi value (ValueKind.inst block index) = inst_kind_errors f name vi block index

unfoldable pub check_value : Function → Name → Scan → ℕ → ValueData → List VerifyError
check_value f name s i value = kind_errors f name s (i % 2 ^ 32) value value.kind

-- The errors that `check_definitions` pushes, in order.
unfoldable pub check_definitions : Function → Name → List VerifyError
check_definitions f name =
    let s = scan_definitions f name in s.errors ++ report_from (check_value f name s) 0 f.values
