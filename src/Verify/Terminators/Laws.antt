-- ===== src/Verify/Terminators/Laws.antt =====
-- What the terminators of a function must satisfy, described without the errors.
use astronomy.Prelude.{
  ℕ, suc, ◌+◌, ◌%◌, ◌^◌, ◌≡◌, ◌↔◌, refl, sym, ap, ◌∙◌, subst, Bool, true, false, List, [], ◌∷◌,
  ◌++◌, Option, none, some, length, arith, get_elem?, ◌==◌, ==_iff, if◌then◌else◌,
}
use mathlib.Core.Option.{some-injective}
use astronomy.Ir.Types.{TypeId, type_at}
use astronomy.Ir.Functions.{
  ValueId, BlockId, ValueData, BlockParam, BasicBlock, Terminator, Function,
}
use astronomy.Ir.Modules.{Name, Module}
use astronomy.Verify.Errors.{VerifyError}
use astronomy.Verify.Loops.{report_from-get, report_from-nil, append_nil-parts}
use astronomy.Verify.Terminators.{
  arg_errors, args_errors, count_errors, target_errors, edge_errors, condition_errors, is_void_type,
  returned_errors, return_errors, terminator_errors, opt_terminator_errors, block_errors,
  check_terminators, i1_id,
}

-- A value of the arena has this type; a value out of the arena is reported elsewhere.
abbrev pub HasType : List ValueData → ValueId → TypeId → Type 0
HasType values v ty = (d : ValueData) → get_elem? values v ≡ some d → d.ty ≡ ty

abbrev pub FitsParams : List ValueData → List ValueId → List BlockParam → Type 0
FitsParams values [] [] = Unit {0}
FitsParams values (arg ∷ args) (param ∷ params) =
    HasType values arg param.ty × FitsParams values args params
FitsParams values _ _ = ⊥

-- The target exists, and the arguments match its parameters in number and in type.
abbrev pub IsEdge : Function → BlockId → List ValueId → Type 0
IsEdge f to args =
    (target : BasicBlock) × (get_elem? f.blocks to ≡ some target)
    × FitsParams f.values args target.params

abbrev pub IsReturn : Module → Function → Option ValueId → Type 0
IsReturn m f (some v) =
    (is_void_type (type_at m.types f.result) ≡ false) × HasType f.values v f.result
IsReturn m f none = is_void_type (type_at m.types f.result) ≡ true

abbrev pub IsTerminator : Module → Function → Terminator → Type 0
IsTerminator m f (Terminator.jump target args) = IsEdge f target args
IsTerminator m f (Terminator.branch condition then_block then_args else_block else_args) =
    HasType f.values condition i1_id × IsEdge f then_block then_args × IsEdge f else_block else_args
IsTerminator m f (Terminator.return value) = IsReturn m f value
IsTerminator m f Terminator.unreachable = Unit {0}

-- A test that reports where it fails.
if_clean : (b : Bool) (e : VerifyError) → ((if b then [] else e ∷ []) ≡ []) ↔ (b ≡ true)
if_clean true e = (λ _. refl, λ _. refl)
if_clean false e = (λ h. cc, λ h. cc)

-- A type that is looked up and compared.
type_clean :
    (values : List ValueData) (v ty : ℕ) (report : Option ValueData → List VerifyError)
    (e : ValueData → VerifyError)
    → (report none ≡ [])
    → ((d : ValueData) → report (some d) ≡ (if d.ty == ty then [] else e d ∷ []))
    → (report (get_elem? values v) ≡ []) ↔ HasType values v ty
type_clean values v ty report e at_none at_some = go (get_elem? values v)
  where
    go : (o : Option ValueData) → (report o ≡ []) ↔ ((d : ValueData) → o ≡ some d → d.ty ≡ ty)
    go none = (λ h d q. cc, λ h. at_none)
    go (some c) = (
      λ h d q.
          let fits = (==_iff c.ty ty).0 ((if_clean (c.ty == ty) (e c)).0 (sym (at_some c) ∙ h)) in
          subst (λ x. x.ty ≡ ty) (some-injective _ _ q) fits,
      λ h. at_some c ∙ (if_clean (c.ty == ty) (e c)).1 ((==_iff c.ty ty).1 (h c refl)),
    )

append_clean : (xs ys : List VerifyError) → (xs ++ ys ≡ []) ↔ ((xs ≡ []) × (ys ≡ []))
append_clean xs ys = (append_nil-parts xs ys, λ (a, b). rw (a, b) refl)

module _ (values : List ValueData) (name : Name) (from to : ℕ) where
  args_clean :
      (i : ℕ) (args : List ValueId) (params : List BlockParam)
      → ((length params ≡ length args) × (args_errors values name from to i args params ≡ []))
        ↔ FitsParams values args params
  unfolding args_errors
  args_clean i [] [] = (λ _. tt, λ _. (refl, refl))
  args_clean i [] (param ∷ params) = (λ h. absurd (omega (arith, h.0)), λ h. absurd h)
  args_clean i (arg ∷ args) [] = (λ h. absurd (omega (arith, h.0)), λ h. absurd h)
  args_clean i (arg ∷ args) (param ∷ params) =
      let one =
        type_clean values arg param.ty (λ o. arg_errors name from to i o param) _ refl
          (λ d. refl) in
      let rest = args_clean (i + 1) args params in
      let both =
        append_clean (arg_errors name from to i (get_elem? values arg) param)
          (args_errors values name from to (i + 1) args params) in
      (
        λ (size, clean). (one.0 (both.0 clean).0, rest.0 (omega (arith, size), (both.0 clean).1)),
        λ (fits, later). (ap suc (rest.1 later).0, both.1 (one.1 fits, (rest.1 later).1)),
      )

IsEdge-clean :
    (f : Function) (name : Name) (from to : ℕ) (args : List ValueId)
    → (edge_errors f name from to args ≡ []) ↔ IsEdge f to args
unfolding edge_errors
IsEdge-clean f name from to args = go (get_elem? f.blocks to)
  where
    go :
        (o : Option BasicBlock)
        → (target_errors f.values name from to args o ≡ [])
          ↔ ((target : BasicBlock) × (o ≡ some target) × FitsParams f.values args target.params)
    go none = (λ h. cc, λ h. absurd (let z = h.1 in cc))
    go (some target) =
        let all = args_clean f.values name from to 0 args target.params in
        let both =
          append_clean (count_errors name from to (length target.params) (length args))
            (args_errors f.values name from to 0 args target.params) in
        let size = if_clean (length target.params == length args) _ in
        let same = ==_iff (length target.params) (length args) in
        (
          λ h. (target, refl, all.0 (same.0 (size.0 (both.0 h).0), (both.0 h).1)),
          λ (t, e, fits).
              let (count, clean) = all.1 (
                subst (λ x. FitsParams f.values args x.params) (sym (some-injective _ _ e)) fits) in
              both.1 (size.1 (same.1 count), clean),
        )

IsReturn-clean :
    (m : Module) (f : Function) (name : Name) (value : Option ValueId)
    → (return_errors f name (is_void_type (type_at m.types f.result)) value ≡ [])
      ↔ IsReturn m f value
IsReturn-clean m f name none = go (is_void_type (type_at m.types f.result))
  where
    go : (void : Bool) → (return_errors f name void none ≡ []) ↔ (void ≡ true)
    go true = (λ _. refl, λ _. refl)
    go false = (λ h. cc, λ h. cc)
IsReturn-clean m f name (some v) = go (is_void_type (type_at m.types f.result))
  where
    go :
        (void : Bool)
        → (return_errors f name void (some v) ≡ []) ↔ ((void ≡ false) × HasType f.values v f.result)
    go true = (λ h. cc, λ h. absurd (let z = h.0 in cc))
    go false =
        let typed = type_clean f.values v f.result (returned_errors f name) _ refl (λ d. refl) in
        (λ h. (refl, typed.0 h), λ h. typed.1 h.1)

terminator_clean :
    (m : Module) (f : Function) (name : Name) (from : ℕ) (t : Terminator)
    → (terminator_errors m f name from t ≡ []) ↔ IsTerminator m f t
unfolding terminator_errors
terminator_clean m f name from (Terminator.jump target args) = IsEdge-clean f name from target args
terminator_clean m f name from
      (Terminator.branch condition then_block then_args else_block else_args) =
    let test = type_clean f.values condition i1_id (condition_errors name) _ refl (λ d. refl) in
    let to_then = IsEdge-clean f name from then_block then_args in
    let to_else = IsEdge-clean f name from else_block else_args in
    let tests = condition_errors name (get_elem? f.values condition) in
    let last =
      append_clean (tests ++ edge_errors f name from then_block then_args)
        (edge_errors f name from else_block else_args) in
    let first = append_clean tests (edge_errors f name from then_block then_args) in
    (
      λ h.
          let (front, b) = last.0 h in
          let (tested, a) = first.0 front in (test.0 tested, to_then.0 a, to_else.0 b),
      λ (tested, a, b). last.1 (first.1 (test.1 tested, to_then.1 a), to_else.1 b),
    )
terminator_clean m f name from (Terminator.return value) = IsReturn-clean m f name value
terminator_clean m f name from Terminator.unreachable = (λ _. tt, λ _. refl)

opt_terminator_clean :
    (m : Module) (f : Function) (name : Name) (from : ℕ) (o : Option Terminator)
    → (opt_terminator_errors m f name from o ≡ [])
      ↔ ((t : Terminator) × (o ≡ some t) × IsTerminator m f t)
opt_terminator_clean m f name from none = (λ h. cc, λ h. absurd (let z = h.1 in cc))
opt_terminator_clean m f name from (some t) =
    let one = terminator_clean m f name from t in
    (
      λ h. (t, refl, one.0 h),
      λ (u, e, good). one.1 (subst (IsTerminator m f) (sym (some-injective _ _ e)) good),
    )

-- The terminators of a function are checked without an error exactly where every block has a terminator whose targets exist, whose arguments match the parameters of the targets in number and in type, whose condition is an i1, and which returns a value of the function's result type, or none where that is void. The types of values that are not in the arena are left open.
pub check_terminators_iff :
    (m : Module) (f : Function) (name : Name)
    → (check_terminators m f name ≡ []) ↔ (
        (b : BlockId) (block : BasicBlock)
        → get_elem? f.blocks b ≡ some block
        → (t : Terminator) × (block.terminator ≡ some t) × IsTerminator m f t)
unfolding check_terminators block_errors
check_terminators_iff m f name = (
  λ h b block e.
      (opt_terminator_clean m f name ((0 + b) % 2 ^ 32) block.terminator).0
        (report_from-get (block_errors m f name) 0 f.blocks h b block e),
  λ all. report_from-nil (block_errors m f name) 0 f.blocks (λ b block e.
      (opt_terminator_clean m f name ((0 + b) % 2 ^ 32) block.terminator).1 (all b block e)),
)
