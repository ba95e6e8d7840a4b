-- ===== src/X86/Layout/Ends.antt =====
-- Sizes and alignments are found within the fuel, where types refer to earlier types only.
use astronomy.Prelude.{
  Bool-cases, ltb, inl, inr, ℕ, zero, suc, ◌<◌, ◌≡◌, refl, List, [], ◌∷◌, Option, none, some, arith,
  max, All,
}
use astronomy.Ir.Types.{
  TypeId, TypeData, TypeStore, f32, f64, void, int, float, pointer, array, struct, function,
  type_at,
}
use astronomy.Ir.Interner.{get}
use astronomy.Arb.Sound.Types.{IsWellFounded, IsAcyclic}
use astronomy.X86.Layout.{
  Outcome, BackendError, done, failed, out_of_fuel, unsupported_type, struct_overflows, align_up,
  checked_add, and_then, ok_or, size_with, align_with, layout_from, size_and_align, size_of,
  is_machine_width, all_supported, int_supported, supported_with, check_supported, align_of,
}

-- The types that the layout of a type depends on come before it.
abbrev pub IsAfter : ℕ → TypeData → Type 0
IsAfter n (array element length) = element < n
IsAfter n (struct fields) = All (λ f. f < n) fields
IsAfter n _ = Unit {0}

abbrev pub IsBackward : TypeStore → Type 0
IsBackward store =
    (ty : TypeId) (data_ : TypeData) → type_at store ty ≡ some data_ → IsAfter ty data_

abbrev pub Ends : {A : Type 0} → Outcome A → Type 0
Ends o = ¬ (o ≡ out_of_fuel)

and_then-Ends :
    {A B : Type 0} (o : Outcome A) (f : A → Outcome B)
    → Ends o
    → ((a : A) → Ends (f a))
    → Ends (and_then o f)
and_then-Ends (done a) f h all = all a
and_then-Ends (failed e) f h all = λ q. cc
and_then-Ends out_of_fuel f h all = λ q. h refl

done-Ends : {A : Type 0} (a : A) → Ends (done a)
done-Ends a = λ q. cc

ok_or-Ends : {A : Type 0} (o : Option A) (e : BackendError) → Ends (ok_or o e)
ok_or-Ends none e = λ q. cc
ok_or-Ends (some a) e = λ q. cc

module _ (align_at size_at : TypeId → Outcome ℕ) (n : ℕ)
    (ends : (t : TypeId) → t < n → Ends (align_at t) × Ends (size_at t)) (ty : TypeId) where
  layout_from-Ends :
      (offset align : ℕ) (fields : List TypeId)
      → All (λ f. f < n) fields
      → Ends (layout_from align_at size_at ty offset align fields)
  unfolding layout_from
  layout_from-Ends offset align [] below =
      and_then-Ends (ok_or (align_up offset align) (unsupported_type ty struct_overflows)) _
        (ok_or-Ends _ _) (λ size. done-Ends (size, align))
  layout_from-Ends offset align (f ∷ fields) (lt, below) =
      and_then-Ends (align_at f) _ (ends f lt).0 (λ fa.
        and_then-Ends (size_at f) _ (ends f lt).1 (λ fs.
          and_then-Ends (ok_or (align_up offset fa) (unsupported_type ty struct_overflows)) _
            (ok_or-Ends _ _)
            (λ start.
              and_then-Ends (ok_or (checked_add start fs) (unsupported_type ty struct_overflows)) _
                (ok_or-Ends _ _) (λ last. layout_from-Ends last (max align fa) fields below))))

  with-Ends :
      (o : Option TypeData)
      → ((t : TypeData) → o ≡ some t → IsAfter n t)
      → Ends (align_with align_at size_at ty o) × Ends (size_with align_at size_at ty o)
  with-Ends none after = (λ q. cc, λ q. cc)
  with-Ends (some void) after = (λ q. cc, λ q. cc)
  with-Ends (some (int bits signed)) after = (λ q. cc, λ q. cc)
  with-Ends (some (float f32)) after = (λ q. cc, λ q. cc)
  with-Ends (some (float f64)) after = (λ q. cc, λ q. cc)
  with-Ends (some (pointer pointee space)) after = (λ q. cc, λ q. cc)
  with-Ends (some (array element length)) after =
      let lt = after (array element length) refl in
      (
        (ends element lt).0,
        and_then-Ends (size_at element) _ (ends element lt).1 (λ e. ok_or-Ends _ _),
      )
  with-Ends (some (struct fields)) after =
      let all = layout_from-Ends 0 1 fields (after (struct fields) refl) in
      (and_then-Ends _ _ all (λ l. done-Ends l.1), and_then-Ends _ _ all (λ l. done-Ends l.0))
  with-Ends (some (function params variadic result)) after = (λ q. cc, λ q. cc)

backward-Ends :
    (fuel : ℕ) (store : TypeStore) (ty : TypeId)
    → IsBackward store
    → ty < fuel
    → Ends (align_of fuel store ty) × Ends (size_of fuel store ty)
unfolding size_and_align
backward-Ends zero store ty backward enough = absurd (omega arith)
backward-Ends (suc fuel) store ty backward enough =
    with-Ends (align_of fuel store) (size_of fuel store) ty
      (λ t lt. backward-Ends fuel store t backward (omega (arith, lt, enough))) ty
      (type_at store ty) (backward ty)

module _ (check : TypeId → Outcome (Unit {0})) (n : ℕ)
    (ends : (t : TypeId) → t < n → Ends (check t)) (ty : TypeId) where
  all_supported-Ends :
      (fields : List TypeId) → All (λ f. f < n) fields → Ends (all_supported check fields)
  unfolding all_supported
  all_supported-Ends [] below = done-Ends tt
  all_supported-Ends (f ∷ fields) (lt, below) =
      and_then-Ends (check f) _ (ends f lt) (λ _. all_supported-Ends fields below)

  int_supported-Ends : (bits : ℕ) → Ends (int_supported ty bits)
  int_supported-Ends bits = elim (Bool-cases (ltb 64 bits)) [
    | inl wide ↦ rw wide (λ q. cc)
    | inr narrow ↦ elim (Bool-cases (is_machine_width bits)) [
      | inl fits ↦ rw (narrow, fits) (done-Ends tt)
      | inr odd ↦ rw (narrow, odd) (λ q. cc)
    ]
  ]

  supported_with-Ends :
      (o : Option TypeData)
      → ((t : TypeData) → o ≡ some t → IsAfter n t)
      → Ends (supported_with check ty o)
  supported_with-Ends none after = λ q. cc
  supported_with-Ends (some void) after = λ q. cc
  supported_with-Ends (some (int bits signed)) after = int_supported-Ends bits
  supported_with-Ends (some (float kind)) after = done-Ends tt
  supported_with-Ends (some (pointer pointee space)) after = done-Ends tt
  supported_with-Ends (some (array element length)) after =
      ends element (after (array element length) refl)
  supported_with-Ends (some (struct fields)) after =
      all_supported-Ends fields (after (struct fields) refl)
  supported_with-Ends (some (function params variadic result)) after = λ q. cc

supported-Ends :
    (fuel : ℕ) (store : TypeStore) (ty : TypeId)
    → IsBackward store
    → ty < fuel
    → Ends (check_supported fuel store ty)
unfolding check_supported
supported-Ends zero store ty backward enough = absurd (omega arith)
supported-Ends (suc fuel) store ty backward enough =
    supported_with-Ends (check_supported fuel store) ty
      (λ t lt. supported-Ends fuel store t backward (omega (arith, lt, enough))) ty
      (type_at store ty) (backward ty)

IsWellFounded-IsAfter : (n : ℕ) (t : TypeData) → IsWellFounded n t → IsAfter n t
IsWellFounded-IsAfter n void h = tt
IsWellFounded-IsAfter n (int bits signed) h = tt
IsWellFounded-IsAfter n (float kind) h = tt
IsWellFounded-IsAfter n (pointer pointee space) h = tt
IsWellFounded-IsAfter n (array element count) h = h
IsWellFounded-IsAfter n (struct fields) h = h
IsWellFounded-IsAfter n (function params variadic result) h = tt

-- In a type table in which no type refers to itself or a later one, as in every module that is read, the recursions of `size_of`, `align_of` and `check_supported` end: fuel above the type's id suffices.
pub size_of-Ends :
    (fuel : ℕ) (store : TypeStore) (ty : TypeId)
    → IsAcyclic store
    → ty < fuel
    → Ends (align_of fuel store ty)
      × Ends (size_of fuel store ty)
      × Ends (check_supported fuel store ty)
unfolding type_at get
size_of-Ends fuel store ty h enough =
    let backward : IsBackward store = λ j t e. IsWellFounded-IsAfter j t (h.acyclic j t e) in
    let (aligned, sized) = backward-Ends fuel store ty backward enough in
    (aligned, sized, supported-Ends fuel store ty backward enough)
