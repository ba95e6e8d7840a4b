-- ===== src/Verify/Ssa/Form.antt =====
-- SSA form, described without the scan: which value each site of a function defines.
use astronomy.Prelude.{ℕ, ◌<◌, ◌≤◌, ◌≡◌, Option, none, some, length, get_elem?}
use astronomy.Ir.Types.{TypeId}
use astronomy.Ir.Functions.{ValueKind, ValueData, Instruction, BlockParam, Param, Function}
use astronomy.Verify.Errors.{DefSite}
use astronomy.Verify.Ssa.{block_param_at, instruction_at}

abbrev pub param_value : Option Param → Option ℕ
param_value none = none
param_value (some p) = some p.value

abbrev pub block_param_value : Option BlockParam → Option ℕ
block_param_value none = none
block_param_value (some p) = some p.value

abbrev pub result_value : Option Instruction → Option ℕ
result_value none = none
result_value (some inst) = inst.result

-- The value that a site of `f` defines, if it is a site of `f` and defines one.
unfoldable pub value_at : Function → DefSite → Option ℕ
value_at f (DefSite.function_param i) = param_value (get_elem? f.params i)
value_at f (DefSite.block_param b i) = block_param_value (block_param_at f b i)
value_at f (DefSite.inst b i) = result_value (instruction_at f b i)

-- Value `vi`, of type `ty`, is defined where its kind says, with that type where the site states one.
abbrev pub IsDefinedBy : Function → ℕ → TypeId → ValueKind → Type 0
IsDefinedBy f vi ty ValueKind.reserved = ⊥
IsDefinedBy f vi ty (ValueKind.param i) =
    (p : Param) × (get_elem? f.params i ≡ some p) × (p.value ≡ vi) × (p.ty ≡ ty)
IsDefinedBy f vi ty (ValueKind.block_param b i) =
    (p : BlockParam) × (block_param_at f b i ≡ some p) × (p.value ≡ vi) × (p.ty ≡ ty)
IsDefinedBy f vi ty (ValueKind.inst b i) =
    (inst : Instruction) × (instruction_at f b i ≡ some inst) × (inst.result ≡ some vi)

pub record IsSsa (f : Function) : Type 0 where
  pub arena : length f.params ≤ length f.values
  pub params : (i : ℕ) (p : Param) → get_elem? f.params i ≡ some p → p.value ≡ i
  pub results : (b i v : ℕ) → value_at f (DefSite.inst b i) ≡ some v → v < length f.values
  pub unique : (v : ℕ) (s t : DefSite) → value_at f s ≡ some v → value_at f t ≡ some v → s ≡ t
  pub kinds :
      (vi : ℕ) (d : ValueData) → get_elem? f.values vi ≡ some d → IsDefinedBy f vi d.ty d.kind
