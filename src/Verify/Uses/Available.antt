-- ===== src/Verify/Uses/Available.antt =====
-- Where a value is available, and what a use that is not reported says of it.
use astronomy.Prelude.{
  ℕ, zero, suc, ◌+◌, ◌-◌, ◌^◌, ◌<◌, ◌≡◌, ◌≢◌, ◌⊎◌, refl, sym, ap, ◌∙◌, subst, Bool, true, false,
  List, [], ◌∷◌, Option, none, some, min, length, arith, ltb, ltb→lt, ◌==◌, ==_iff, Bool-cases,
  get_elem?, get_elem?-lt, inl, inr, if◌then◌else◌,
}
use mathlib.Core.Logic.{⊎_elim}
use mathlib.Core.Option.{some-injective}
use astronomy.Prelude.Arrays.{at_or}
use astronomy.Ir.Types.{TypeId}
use astronomy.Ir.Functions.{ValueId, BlockId, ValueKind, BasicBlock, Function}
use astronomy.Ir.Modules.{Name}
use astronomy.Verify.Loops.{bind_parts}
use astronomy.Verify.Ssa.{param_of, instruction_of}
use astronomy.Verify.Ssa.Form.{IsDefinedBy}
use astronomy.Verify.Cfg.{successors}
use astronomy.Verify.Cfg.Dfs.{Walk}
use astronomy.Verify.Dominators.{CfgInfo, dominates}
use astronomy.Verify.Dominators.Walks.{Dominates}
use astronomy.Verify.Dominators.Queries.{IsAnalysis, dominates_lem}
use astronomy.Verify.Uses.{
  strictly_dominates, def_pos, not_dominated, is_before, reachable_errors, defined_errors,
}

-- A value of this kind may be used in block `ub` behind its first `at` instructions: it is a parameter
-- of the function, or its definition comes before in the block, or in a block that dominates it.
abbrev pub IsAvailable : List (List BlockId) → BlockId → ℕ → ValueKind → Type 0
IsAvailable succs ub at ValueKind.reserved = Unit {0}
IsAvailable succs ub at (ValueKind.param index) = Unit {0}
IsAvailable succs ub at (ValueKind.block_param db index) = (db ≡ ub) ⊎ Dominates succs db ub
IsAvailable succs ub at (ValueKind.inst db index) =
    ((db ≡ ub) × (index < at)) ⊎ ((db ≢ ub) × Dominates succs db ub)

get_elem?-at_or :
    (xs : List Bool) (i : ℕ) → i < length xs → get_elem? xs i ≡ some (at_or false xs i)
get_elem?-at_or [] i h = absurd (omega arith)
get_elem?-at_or (x ∷ xs) zero h = refl
get_elem?-at_or (x ∷ xs) (suc i) h = get_elem?-at_or xs i (omega arith)

not_dominated-nil :
    (name : Name) (v : ValueId) (ub db : BlockId) (ok : Bool)
    → not_dominated name v ub db ok ≡ []
    → ok ≡ true
not_dominated-nil name v ub db true h = refl
not_dominated-nil name v ub db false h = cc

module _ (f : Function) (name : Name) (body : 0 < length (successors f)) (info : CfgInfo)
    (h : IsAnalysis (successors f) info) where
  is_before_lem :
      (ub pos db dpos : ℕ)
      → Walk (successors f) ub
      → is_before info ub pos db dpos ≡ some true
      → ((db ≡ ub) × (dpos < pos)) ⊎ ((db ≢ ub) × Dominates (successors f) db ub)
  unfolding strictly_dominates
  is_before_lem ub pos db dpos walk ran = elim (Bool-cases (db == ub)) [
    | inl same ↦
        let lt : some (ltb dpos pos) ≡ some true =
          ap (λ c. if c then some (ltb dpos pos) else strictly_dominates info db ub) (sym same)
          ∙ ran in
        inl ((==_iff db ub).0 same, ltb→lt dpos pos (some-injective _ _ lt))
    | inr differ ↦
        let (d, answer, iff) = dominates_lem (successors f) body info h db ub walk in
        let asked : dominates info db ub ≡ some true =
          ap (λ c. if c then some false else dominates info db ub) (sym differ)
          ∙ (ap (λ c. if c then some (ltb dpos pos) else strictly_dominates info db ub) (sym differ)
              ∙ ran) in
        inr
          (λ s. (let t = (==_iff db ub).1 s in cc), iff.0 (some-injective _ _ (sym answer ∙ asked)))
  ]

  reachable_errors_lem :
      (v ub pos db dpos : ℕ) (reached : Bool)
      → Walk (successors f) ub
      → reachable_errors info name v ub pos db dpos (some reached) ≡ some []
      → ((db ≡ ub) × (dpos < pos)) ⊎ ((db ≢ ub) × Dominates (successors f) db ub)
  reachable_errors_lem v ub pos db dpos false walk clean = cc
  reachable_errors_lem v ub pos db dpos true walk clean =
      let (ok, ran, none_left) = bind_parts (is_before info ub pos db dpos) _ [] clean in
      let good = not_dominated-nil name v ub db ok (some-injective _ _ none_left) in
      is_before_lem ub pos db dpos walk (ran ∙ ap some good)

  defined_errors_lem :
      (v ub pos db dpos : ℕ)
      → Walk (successors f) ub
      → db < length (successors f)
      → defined_errors info name v ub pos (some (db, dpos)) ≡ some []
      → ((db ≡ ub) × (dpos < pos)) ⊎ ((db ≢ ub) × Dominates (successors f) db ub)
  defined_errors_lem v ub pos db dpos walk range clean =
      let here = (h.reach ub).1 walk in
      let there = get_elem?-at_or info.reachable db (omega (arith, range, h.size)) in
      reachable_errors_lem v ub pos db dpos (at_or false info.reachable db) walk (
        ap (reachable_errors info name v ub pos db dpos) (sym there)
        ∙ (ap
              (λ c.
                if c
                then reachable_errors info name v ub pos db dpos (get_elem? info.reachable db)
                else some [])
              (sym here)
            ∙ clean))

  pub kind_lem :
      (v ub at : ℕ) (kind : ValueKind)
      → Walk (successors f) ub
      → at + 1 < 2 ^ 32
      → ((db dpos : ℕ) → def_pos kind ≡ some (db, dpos) → db < length (successors f))
      → defined_errors info name v ub (at + 1) (def_pos kind) ≡ some []
      → IsAvailable (successors f) ub at kind
  kind_lem v ub at ValueKind.reserved walk small range clean = tt
  kind_lem v ub at (ValueKind.param index) walk small range clean = tt
  kind_lem v ub at (ValueKind.block_param db index) walk small range clean =
      ⊎_elim (λ here. inl here.0) (λ far. inr far.1)
        (defined_errors_lem v ub (at + 1) db 0 walk (range db 0 refl) clean)
  kind_lem v ub at (ValueKind.inst db index) walk small range clean =
      ⊎_elim (λ here. inl (here.0, omega (arith, here.1, small))) (λ far. inr far)
        (defined_errors_lem v ub (at + 1) db (min (index + 1) (2 ^ 32 - 1)) walk (range db _ refl)
          clean)

pub def_pos-range :
    (f : Function) (vi : ℕ) (ty : TypeId) (kind : ValueKind)
    → IsDefinedBy f vi ty kind
    → (db dpos : ℕ) → def_pos kind ≡ some (db, dpos)
    → db < length f.blocks
def_pos-range f vi ty ValueKind.reserved d db dpos e = absurd d
def_pos-range f vi ty (ValueKind.param index) d db dpos e = cc
def_pos-range f vi ty (ValueKind.block_param b index) (p, at, _, _) db dpos e =
    subst (λ x. x < length f.blocks) (ap (λ q. q.0) (some-injective _ _ e))
      (inside (get_elem? f.blocks b) refl at)
  where
    inside :
        (o : Option BasicBlock)
        → get_elem? f.blocks b ≡ o
        → param_of o index ≡ some p
        → b < length f.blocks
    inside none e at = cc
    inside (some block) e at = get_elem?-lt f.blocks b e
def_pos-range f vi ty (ValueKind.inst b index) (inst, at, _) db dpos e =
    subst (λ x. x < length f.blocks) (ap (λ q. q.0) (some-injective _ _ e))
      (inside (get_elem? f.blocks b) refl at)
  where
    inside :
        (o : Option BasicBlock)
        → get_elem? f.blocks b ≡ o
        → instruction_of o index ≡ some inst
        → b < length f.blocks
    inside none e at = cc
    inside (some block) e at = get_elem?-lt f.blocks b e
