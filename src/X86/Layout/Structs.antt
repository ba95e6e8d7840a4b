-- ===== src/X86/Layout/Structs.antt =====
-- The fields of a struct lie in it, aligned and apart.
use astronomy.Prelude.{
  ℕ, zero, suc, ◌+◌, ◌%◌, ◌<◌, ◌≤◌, ◌≡◌, refl, sym, ap, ◌∙◌, subst, List, Option, none, some,
  get_elem?, inl, inr,
}
use astronomy.Ir.Types.{
  TypeId, TypeData, TypeStore, f32, f64, void, int, float, pointer, array, struct, function,
  type_at,
}
use astronomy.X86.Layout.{
  Outcome, done, size_with, align_with, struct_offset, offset_with, layout_from, size_and_align,
  size_of, align_of, field_offset,
}
use astronomy.X86.Layout.Aligned.{IsAlign, int_align-IsAlign}
use astronomy.X86.Layout.Fields.{
  done-injective, and_then-parts, layout_from-end, IsField, layout_from-IsField, layout_from-apart,
}

align_with-IsAlign :
    (align_at size_at : TypeId → Outcome ℕ)
    → ((t : TypeId) (a : ℕ) → align_at t ≡ done a → IsAlign a)
    → (ty : TypeId) (o : Option TypeData) (a : ℕ) → align_with align_at size_at ty o ≡ done a
    → IsAlign a
align_with-IsAlign align_at size_at aligned ty none a h = cc
align_with-IsAlign align_at size_at aligned ty (some void) a h = inl (sym (done-injective 1 a h))
align_with-IsAlign align_at size_at aligned ty (some (int bits signed)) a h =
    subst IsAlign (done-injective _ a h) (int_align-IsAlign bits)
align_with-IsAlign align_at size_at aligned ty (some (float f32)) a h =
    inr (inr (inl (sym (done-injective 4 a h))))
align_with-IsAlign align_at size_at aligned ty (some (float f64)) a h =
    inr (inr (inr (inl (sym (done-injective 8 a h)))))
align_with-IsAlign align_at size_at aligned ty (some (pointer pointee space)) a h =
    inr (inr (inr (inl (sym (done-injective 8 a h)))))
align_with-IsAlign align_at size_at aligned ty (some (array element n)) a h = aligned element a h
align_with-IsAlign align_at size_at aligned ty (some (struct fields)) a h =
    let (layout, ran, e) = and_then-parts (layout_from align_at size_at ty 0 1 fields) _ a h in
    subst IsAlign (done-injective layout.1 a e)
      (layout_from-end align_at size_at aligned ty 0 1 fields layout.0 layout.1 (inl refl) ran).2
align_with-IsAlign align_at size_at aligned ty (some (function params variadic result)) a h = cc

pub align_of-IsAlign :
    (fuel : ℕ) (store : TypeStore) (ty : TypeId) (a : ℕ)
    → align_of fuel store ty ≡ done a
    → IsAlign a
unfolding size_and_align
align_of-IsAlign zero store ty a h = cc
align_of-IsAlign (suc fuel) store ty a h =
    align_with-IsAlign (align_of fuel store) (size_of fuel store) (align_of-IsAlign fuel store) ty
      (type_at store ty) a h

module _ (fuel : ℕ) (store : TypeStore) (ty : TypeId) (fields : List TypeId) (total : ℕ)
    (shape : type_at store ty ≡ some (struct fields))
    (sized : size_of (suc fuel) store ty ≡ done total) where
  laid_out :
      (a : ℕ) × (layout_from (align_of fuel store) (size_of fuel store) ty 0 1 fields
        ≡ done (total, a))
  unfolding size_and_align
  laid_out =
      let known : size_with (align_of fuel store) (size_of fuel store) ty (some (struct fields))
          ≡ done total =
        ap (size_with (align_of fuel store) (size_of fuel store) ty) (sym shape) ∙ sized in
      let (layout, ran, e) =
        and_then-parts (layout_from (align_of fuel store) (size_of fuel store) ty 0 1 fields) _
          total known in
      (layout.1, ran ∙ ap (λ x. done (x, layout.1)) (done-injective layout.0 total e))

  offset_is :
      (i : ℕ) (field : TypeId) (start size : ℕ)
      → get_elem? fields i ≡ some field
      → IsField
          (align_of fuel store)
          (size_of fuel store)
          (align_of-IsAlign fuel store)
          ty
          0
          total
          fields
          i
          field
          start
          size
      → field_offset fuel store ty i ≡ done start
  unfolding field_offset
  offset_is i field start size e h =
      ap (offset_with (align_of fuel store) (size_of fuel store) ty i) shape
      ∙ (ap (struct_offset (align_of fuel store) (size_of fuel store) ty fields i) e ∙ h.start_is)

-- In a struct that has a size, every field has an offset, a size and an alignment: the offset is a multiple of the alignment, and the field ends inside the struct.
pub field_offset-inside :
    (fuel : ℕ) (store : TypeStore) (ty : TypeId) (fields : List TypeId) (total : ℕ)
    → type_at store ty ≡ some (struct fields)
    → size_of (suc fuel) store ty ≡ done total
    → (i : ℕ) (field : TypeId) → get_elem? fields i ≡ some field
    → (start : ℕ) × (size : ℕ) × (align : ℕ) × (field_offset fuel store ty i ≡ done start)
      × (size_of fuel store field ≡ done size)
      × (align_of fuel store field ≡ done align)
      × (start % align ≡ 0)
      × (start + size ≤ total)
field_offset-inside fuel store ty fields total shape sized i field e =
    let (a, ran) = laid_out fuel store ty fields total shape sized in
    let (start, size, h) =
      layout_from-IsField (align_of fuel store) (size_of fuel store) (align_of-IsAlign fuel store)
        ty 0 1 fields total a (inl refl) ran i field e in
    (
      start,
      size,
      h.align,
      offset_is fuel store ty fields total shape sized i field start size e h,
      h.size_is,
      h.align_is,
      h.multiple,
      h.inside,
    )

-- In a struct that has a size, a field ends before the fields behind it start: no two fields overlap.
pub field_offset-apart :
    (fuel : ℕ) (store : TypeStore) (ty : TypeId) (fields : List TypeId) (total : ℕ)
    → type_at store ty ≡ some (struct fields)
    → size_of (suc fuel) store ty ≡ done total
    → (i j : ℕ) (f g : TypeId) → i < j
    → get_elem? fields i ≡ some f
    → get_elem? fields j ≡ some g
    → (start : ℕ) × (size : ℕ) × (start' : ℕ) × (field_offset fuel store ty i ≡ done start)
      × (size_of fuel store f ≡ done size)
      × (field_offset fuel store ty j ≡ done start')
      × (start + size ≤ start')
field_offset-apart fuel store ty fields total shape sized i j f g lt ef eg =
    let (a, ran) = laid_out fuel store ty fields total shape sized in
    let (s, z, s', z', one, two, before) =
      layout_from-apart (align_of fuel store) (size_of fuel store) (align_of-IsAlign fuel store) ty
        0 1 fields total a (inl refl) ran i j f g lt ef eg in
    (
      s,
      z,
      s',
      offset_is fuel store ty fields total shape sized i f s z ef one,
      one.size_is,
      offset_is fuel store ty fields total shape sized j g s' z' eg two,
      before,
    )
