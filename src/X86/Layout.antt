-- ===== src/X86/Layout.antt =====
-- Memory layout of types (astronomy-x86/src/layout.rs). A `u64` sum or product that overflows is
-- `none`. A type's components are types of the table, so the recursion runs on fuel.
pub mod Aligned
pub mod Fields
pub mod Structs
pub mod Ends
use astronomy.Prelude.{
  ℕ, zero, suc, ◌+◌, ◌-◌, ◌*◌, ◌/◌, ◌^◌, max, bit_and, Bool, true, false, List, [], ◌∷◌, Option,
  none, some, length, get_elem?, take, ltb, leb, ◌==◌, ◌||◌, if◌then◌else◌,
}
use astronomy.Ir.Modules.{Name}
use astronomy.Ir.Types.{
  TypeId, FloatKind, TypeData, TypeStore, f32, f64, void, int, float, pointer, array, struct,
  function, type_at,
}

-- The texts of an error, with its context: the operation that failed.
pub data Reason : Type 0 where
  no_type_to_size no_type_to_align array_overflows function_has_no_size function_has_no_alignment :
      Reason
  struct_overflows offset_overflows not_an_aggregate no_field_type : Reason
  field_out_of_struct field_out_of_aggregate : (index : ℕ) → Reason
  void_is_no_value too_wide odd_width function_is_no_value no_type : Reason

-- The layout raises `unsupported_type` and `invalid_module`; the other errors, of the rest of the
-- back end, carry their texts.
pub data BackendError : Type 0 where
  unsupported_type : (ty : TypeId) (reason : Reason) → BackendError
  unsupported_instruction : (function op reason : Name) → BackendError
  unsupported_abi : (function abi : Name) → BackendError
  invalid_module : (reason : Reason) → BackendError
  object_limit : (reason : Name) → BackendError

-- `Result`, and the fuel that ran out.
pub data Outcome (A : Type 0) : Type 0 where
  done : (value : A) → Outcome A
  failed : (error : BackendError) → Outcome A
  out_of_fuel : Outcome A

-- `?`
abbrev pub and_then : {A B : Type 0} → Outcome A → (A → Outcome B) → Outcome B
and_then (done value) f = f value
and_then (failed error) f = failed error
and_then out_of_fuel f = out_of_fuel

-- `.ok_or_else(overflow)`
abbrev pub ok_or : {A : Type 0} → Option A → BackendError → Outcome A
ok_or none error = failed error
ok_or (some value) error = done value

-- `!(align - 1)` on 64 bits
unfoldable pub align_up : ℕ → ℕ → Option ℕ
align_up value align =
    if ltb (value + (align - 1)) (2 ^ 64)
    then some (bit_and (value + (align - 1)) (2 ^ 64 - 1 - (align - 1)))
    else none

abbrev pub checked_add : ℕ → ℕ → Option ℕ
checked_add a b = if ltb (a + b) (2 ^ 64) then some (a + b) else none

abbrev pub checked_mul : ℕ → ℕ → Option ℕ
checked_mul a b = if ltb (a * b) (2 ^ 64) then some (a * b) else none

abbrev pub int_bytes : ℕ → ℕ
int_bytes bits = max ((bits + 7) / 8) 1

abbrev pub int_align : ℕ → ℕ
int_align bits =
    if leb bits 8
    then 1
    else (if leb bits 16 then 2 else (if leb bits 32 then 4 else (if leb bits 64 then 8 else 16)))

-- The loop of `struct_layout`, from an offset and an alignment on.
unfoldable pub layout_from :
    (align_at size_at : TypeId → Outcome ℕ) → TypeId → ℕ → ℕ → List TypeId → Outcome (ℕ × ℕ)
layout_from align_at size_at ty offset align [] =
    and_then (ok_or (align_up offset align) (unsupported_type ty struct_overflows))
      (λ size. done (size, align))
layout_from align_at size_at ty offset align (field ∷ fields) =
    and_then (align_at field) (λ field_align. and_then (size_at field) (λ field_size.
      and_then (ok_or (align_up offset field_align) (unsupported_type ty struct_overflows))
        (λ start.
          and_then (ok_or (checked_add start field_size) (unsupported_type ty struct_overflows))
            (λ end. layout_from align_at size_at ty end (max align field_align) fields))))

abbrev pub struct_layout :
    (align_at size_at : TypeId → Outcome ℕ) → TypeId → List TypeId → Outcome (ℕ × ℕ)
struct_layout align_at size_at ty fields = layout_from align_at size_at ty 0 1 fields

abbrev pub size_with :
    (align_at size_at : TypeId → Outcome ℕ) → TypeId → Option TypeData → Outcome ℕ
size_with align_at size_at ty none = failed (unsupported_type ty no_type_to_size)
size_with align_at size_at ty (some void) = done 0
size_with align_at size_at ty (some (int bits signed)) = done (int_bytes bits)
size_with align_at size_at ty (some (float f32)) = done 4
size_with align_at size_at ty (some (float f64)) = done 8
size_with align_at size_at ty (some (pointer pointee space)) = done 8
size_with align_at size_at ty (some (array element n)) =
    and_then (size_at element)
      (λ elem. ok_or (checked_mul elem n) (unsupported_type ty array_overflows))
size_with align_at size_at ty (some (struct fields)) =
    and_then (struct_layout align_at size_at ty fields) (λ layout. done layout.0)
size_with align_at size_at ty (some (function params variadic result)) =
    failed (unsupported_type ty function_has_no_size)

abbrev pub align_with :
    (align_at size_at : TypeId → Outcome ℕ) → TypeId → Option TypeData → Outcome ℕ
align_with align_at size_at ty none = failed (unsupported_type ty no_type_to_align)
align_with align_at size_at ty (some void) = done 1
align_with align_at size_at ty (some (int bits signed)) = done (int_align bits)
align_with align_at size_at ty (some (float f32)) = done 4
align_with align_at size_at ty (some (float f64)) = done 8
align_with align_at size_at ty (some (pointer pointee space)) = done 8
align_with align_at size_at ty (some (array element n)) = align_at element
align_with align_at size_at ty (some (struct fields)) =
    and_then (struct_layout align_at size_at ty fields) (λ layout. done layout.1)
align_with align_at size_at ty (some (function params variadic result)) =
    failed (unsupported_type ty function_has_no_alignment)

-- `size_of` and `align_of`, which call each other.
unfoldable pub size_and_align : ℕ → TypeStore → TypeId → Outcome ℕ × Outcome ℕ
size_and_align zero store ty = (out_of_fuel, out_of_fuel)
size_and_align (suc fuel) store ty =
    let align_at = λ (t : TypeId). (size_and_align fuel store t).1 in
    let size_at = λ (t : TypeId). (size_and_align fuel store t).0 in
    (
      size_with align_at size_at ty (type_at store ty),
      align_with align_at size_at ty (type_at store ty),
    )

abbrev pub size_of : ℕ → TypeStore → TypeId → Outcome ℕ
size_of fuel store ty = (size_and_align fuel store ty).0

abbrev pub align_of : ℕ → TypeStore → TypeId → Outcome ℕ
align_of fuel store ty = (size_and_align fuel store ty).1

-- The loop of `field_offset` over the fields in front.
unfoldable pub offset_from :
    (align_at size_at : TypeId → Outcome ℕ) → TypeId → ℕ → List TypeId → Outcome ℕ
offset_from align_at size_at ty offset [] = done offset
offset_from align_at size_at ty offset (field ∷ fields) = and_then (align_at field) (λ field_align.
    and_then (ok_or (align_up offset field_align) (unsupported_type ty offset_overflows)) (λ start.
      and_then (size_at field) (λ field_size.
        and_then (ok_or (checked_add start field_size) (unsupported_type ty offset_overflows))
          (λ end. offset_from align_at size_at ty end fields))))

abbrev pub aligned_at : (TypeId → Outcome ℕ) → TypeId → TypeId → ℕ → Outcome ℕ
aligned_at align_at ty field offset =
    and_then (align_at field)
      (λ field_align. ok_or (align_up offset field_align) (unsupported_type ty offset_overflows))

abbrev pub struct_offset :
    (align_at size_at : TypeId → Outcome ℕ) → TypeId → List TypeId → ℕ → Option TypeId → Outcome ℕ
struct_offset align_at size_at ty fields index none =
    failed (invalid_module (field_out_of_struct index))
struct_offset align_at size_at ty fields index (some field) =
    and_then (offset_from align_at size_at ty 0 (take index fields)) (aligned_at align_at ty field)

abbrev pub offset_with :
    (align_at size_at : TypeId → Outcome ℕ) → TypeId → ℕ → Option TypeData → Outcome ℕ
offset_with align_at size_at ty index (some (array element n)) =
    and_then (size_at element)
      (λ elem. ok_or (checked_mul elem index) (unsupported_type ty offset_overflows))
offset_with align_at size_at ty index (some (struct fields)) =
    struct_offset align_at size_at ty fields index (get_elem? fields index)
offset_with align_at size_at ty index _ = failed (unsupported_type ty not_an_aggregate)

unfoldable pub field_offset : ℕ → TypeStore → TypeId → ℕ → Outcome ℕ
field_offset fuel store ty index =
    offset_with (align_of fuel store) (size_of fuel store) ty index (type_at store ty)

abbrev pub listed_field : ℕ → Option TypeId → Outcome TypeId
listed_field index none = failed (invalid_module (field_out_of_aggregate index))
listed_field index (some field) = done field

abbrev pub field_type_with : TypeId → ℕ → Option TypeData → Outcome TypeId
field_type_with ty index (some (array element n)) = done element
field_type_with ty index (some (struct fields)) = listed_field index (get_elem? fields index)
field_type_with ty index _ = failed (unsupported_type ty no_field_type)

unfoldable pub field_type : TypeStore → TypeId → ℕ → Outcome TypeId
field_type store ty index = field_type_with ty index (type_at store ty)

-- The widths of a machine register or a part of one.
abbrev pub is_machine_width : ℕ → Bool
is_machine_width bits = bits == 1 || bits == 8 || bits == 16 || bits == 32 || bits == 64

-- The loop over the fields.
unfoldable pub all_supported : (TypeId → Outcome (Unit {0})) → List TypeId → Outcome (Unit {0})
all_supported check [] = done tt
all_supported check (field ∷ fields) = and_then (check field) (λ _. all_supported check fields)

abbrev pub int_supported : TypeId → ℕ → Outcome (Unit {0})
int_supported ty bits =
    if ltb 64 bits
    then failed (unsupported_type ty too_wide)
    else (if is_machine_width bits then done tt else failed (unsupported_type ty odd_width))

abbrev pub supported_with :
    (TypeId → Outcome (Unit {0})) → TypeId → Option TypeData → Outcome (Unit {0})
supported_with check ty none = failed (unsupported_type ty no_type)
supported_with check ty (some void) = failed (unsupported_type ty void_is_no_value)
supported_with check ty (some (int bits signed)) = int_supported ty bits
supported_with check ty (some (float kind)) = done tt
supported_with check ty (some (pointer pointee space)) = done tt
supported_with check ty (some (array element n)) = check element
supported_with check ty (some (struct fields)) = all_supported check fields
supported_with check ty (some (function params variadic result)) =
    failed (unsupported_type ty function_is_no_value)

-- The context is the caller's, and left out.
unfoldable pub check_supported : ℕ → TypeStore → TypeId → Outcome (Unit {0})
check_supported zero store ty = out_of_fuel
check_supported (suc fuel) store ty =
    supported_with (check_supported fuel store) ty (type_at store ty)
