-- ===== src/Verify/Ssa/Sound.antt =====
-- A function that `check_definitions` (src/verify/ssa.rs) accepts is in SSA form.
use astronomy.Prelude.{
  ℕ, ◌+◌, ◌%◌, ◌^◌, ◌<◌, ◌≤◌, ◌≡◌, refl, sym, ap, ◌∙◌, subst, true, false, [], ◌∷◌, Option, none,
  some, length, get_elem?, ==_iff, arith, Option-cases, Bool-cases, inl, inr, get_elem?-lt,
}
use mathlib.Core.Option.{some-injective}
use astronomy.Ir.Functions.{
  ValueKind, ValueData, Instruction, BlockParam, BasicBlock, Param, Function,
}
use astronomy.Ir.Modules.{Name}
use astronomy.Verify.Errors.{DefSite}
use astronomy.Verify.Loops.{append_nil-parts, report_from-get}
use astronomy.Verify.Ssa.{
  Scan, scan_definitions, registered_errors, declared_errors, claimed_param_errors,
  param_kind_errors, param_of, block_param_at, instruction_of, instruction_at,
  block_param_kind_errors, slot_errors, is_result, inst_kind_errors, kind_errors, check_value,
  check_definitions,
}
use astronomy.Verify.Ssa.Scanned.{
  arena_fits, param_recorded, block_param_recorded, result_recorded, result_fits,
}
use astronomy.Verify.Ssa.Form.{
  IsSsa, IsDefinedBy, value_at, param_value, block_param_value, result_value,
}

module _ (f : Function) where
  claimed_param-IsDefinedBy :
      (name : Name) (s : Scan) (vi index : ℕ) (d : ValueData) (o : Option Param)
      → claimed_param_errors f name s vi d index o ≡ []
      → (p : Param) × (o ≡ some p) × (p.value ≡ vi) × (p.ty ≡ d.ty)
  claimed_param-IsDefinedBy name s vi index d none h = cc
  claimed_param-IsDefinedBy name s vi index d (some p) h =
      let parts : declared_errors name vi d p ≡ [] =
        (append_nil-parts (registered_errors name s vi index) (declared_errors name vi d p) h).1 in
      (p, refl, ground (arith, parts), ground (arith, parts))

  param_of-some :
      (o : Option BasicBlock) (i : ℕ) (p : BlockParam)
      → param_of o i ≡ some p
      → (block : BasicBlock) × (o ≡ some block) × (get_elem? block.params i ≡ some p)
  param_of-some none i p h = cc
  param_of-some (some block) i p h = (block, refl, h)

  instruction_of-some :
      (o : Option BasicBlock) (i : ℕ) (inst : Instruction)
      → instruction_of o i ≡ some inst
      → (block : BasicBlock) × (o ≡ some block) × (get_elem? block.instructions i ≡ some inst)
  instruction_of-some none i inst h = cc
  instruction_of-some (some block) i inst h = (block, refl, h)

  -- What a lookup gave, read off what was made of it.
  param_value-some :
      (o : Option Param) (v : ℕ)
      → param_value o ≡ some v
      → (p : Param) × (o ≡ some p) × (p.value ≡ v)
  param_value-some none v h = cc
  param_value-some (some p) v h = (p, refl, some-injective _ _ h)

  block_param_value-some :
      (o : Option BlockParam) (v : ℕ)
      → block_param_value o ≡ some v
      → (p : BlockParam) × (o ≡ some p) × (p.value ≡ v)
  block_param_value-some none v h = cc
  block_param_value-some (some p) v h = (p, refl, some-injective _ _ h)

  result_value-some :
      (o : Option Instruction) (v : ℕ)
      → result_value o ≡ some v
      → (inst : Instruction) × (o ≡ some inst) × (inst.result ≡ some v)
  result_value-some none v h = cc
  result_value-some (some inst) v h = (inst, refl, h)

  slot_errors-nil :
      (name : Name) (vi block index : ℕ) (d : ValueData) (o : Option BlockParam)
      → slot_errors name vi d block index o ≡ []
      → (p : BlockParam) × (o ≡ some p) × (p.value ≡ vi) × (p.ty ≡ d.ty)
  slot_errors-nil name vi block index d none h = cc
  slot_errors-nil name vi block index d (some p) h = (p, refl, ground (arith, h), ground (arith, h))

  is_result-some :
      (vi : ℕ) (o : Option Instruction)
      → is_result o vi ≡ true
      → (inst : Instruction) × (o ≡ some inst) × (inst.result ≡ some vi)
  is_result-some vi none h = cc
  is_result-some vi (some inst) h = elim (Option-cases inst.result) [
    | inl e ↦ absurd (let q : false ≡ true = rw e at h in cc)
    | inr (r, e) ↦ (inst, refl, e ∙ ap some ((==_iff r vi).0 (rw e at h)))
  ]

  kind_errors-IsDefinedBy :
      (name : Name) (s : Scan) (vi : ℕ) (d : ValueData) (k : ValueKind)
      → kind_errors f name s vi d k ≡ []
      → IsDefinedBy f vi d.ty k
  unfolding kind_errors param_kind_errors block_param_kind_errors inst_kind_errors
  kind_errors-IsDefinedBy name s vi d ValueKind.reserved h = cc
  kind_errors-IsDefinedBy name s vi d (ValueKind.param index) h =
      claimed_param-IsDefinedBy name s vi index d (get_elem? f.params index) h
  kind_errors-IsDefinedBy name s vi d (ValueKind.block_param block index) h =
      slot_errors-nil name vi block index d (block_param_at f block index) h
  kind_errors-IsDefinedBy name s vi d (ValueKind.inst block index) h =
      elim (Bool-cases (is_result (instruction_at f block index) vi)) [
        | inl e ↦ is_result-some vi (instruction_at f block index) e
        | inr e ↦ absurd (let q : _ ∷ [] ≡ [] = rw e at h in cc)
      ]

  module _ (name : Name) (accepted : check_definitions f name ≡ []) where
    scan_clean : (scan_definitions f name).errors ≡ []
    unfolding check_definitions
    scan_clean = (append_nil-parts (scan_definitions f name).errors _ accepted).0

    -- Each site that defines a value is recorded for it.
    site_recorded :
        (s : DefSite) (v : ℕ) → value_at f s ≡ some v → (scan_definitions f name).defined v ≡ some s
    unfolding value_at
    site_recorded (DefSite.function_param i) v e =
        let (p, at, same) = param_value-some (get_elem? f.params i) v e in
        subst (λ w. (scan_definitions f name).defined w ≡ some (DefSite.function_param i)) same
          (param_recorded f name scan_clean i p at).1
    site_recorded (DefSite.block_param b i) v e =
        let (p, at, same) = block_param_value-some (block_param_at f b i) v e in
        let (block, there, here) = param_of-some (get_elem? f.blocks b) i p at in
        subst (λ w. (scan_definitions f name).defined w ≡ some (DefSite.block_param b i)) same
          (block_param_recorded f name scan_clean b i block p there here)
    site_recorded (DefSite.inst b i) v e =
        let (inst, at, made) = result_value-some (instruction_at f b i) v e in
        let (block, there, here) = instruction_of-some (get_elem? f.blocks b) i inst at in
        result_recorded f name scan_clean b i block inst v there here made

    site_result_fits : (b i v : ℕ) → value_at f (DefSite.inst b i) ≡ some v → v < length f.values
    unfolding value_at
    site_result_fits b i v e =
        let (inst, at, made) = result_value-some (instruction_at f b i) v e in
        let (block, there, here) = instruction_of-some (get_elem? f.blocks b) i inst at in
        result_fits f name scan_clean b i block inst v there here made

    kinds_checked :
        length f.values ≤ 2 ^ 32
        → (vi : ℕ) (d : ValueData) → get_elem? f.values vi ≡ some d
        → IsDefinedBy f vi d.ty d.kind
    unfolding check_definitions check_value
    kinds_checked small vi d e =
        let loop = (append_nil-parts (scan_definitions f name).errors _ accepted).1 in
        let round =
          report_from-get (check_value f name (scan_definitions f name)) 0 f.values loop vi d e in
        let index : (0 + vi) % 2 ^ 32 ≡ vi = omega (arith, get_elem?-lt f.values vi e) in
        subst (λ k. IsDefinedBy f k d.ty d.kind) index
          (kind_errors-IsDefinedBy name (scan_definitions f name) ((0 + vi) % 2 ^ 32) d d.kind
            round)

-- A function whose definitions are checked without an error, with at most 2 ^ 32 values, is in SSA form: no two sites define the same value, every value is defined where its kind says, with its type where that site states a type (parameters of the function and of blocks do, instructions do not), parameters are numbered from 0, and results are values of the arena.
pub check_definitions-IsSsa :
    (f : Function) (name : Name)
    → length f.values ≤ 2 ^ 32
    → check_definitions f name ≡ []
    → IsSsa f
check_definitions-IsSsa f name small accepted = record {
  arena = arena_fits f name (scan_clean f name accepted);
  params = λ i p e. (param_recorded f name (scan_clean f name accepted) i p e).0;
  results = site_result_fits f name accepted;
  unique = λ v s t hs ht.
      some-injective _ _
        (sym (site_recorded f name accepted s v hs) ∙ site_recorded f name accepted t v ht);
  kinds = kinds_checked f name accepted small;
}
