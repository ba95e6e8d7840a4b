-- ===== src/X86/Layout/Fields.antt =====
-- Where the fields of a struct lie.
use astronomy.Prelude.{
  ℕ, zero, suc, ◌+◌, ◌%◌, ◌^◌, ◌<◌, ◌≤◌, ◌≡◌, refl, sym, ap, ◌∙◌, subst, List, [], ◌∷◌, Option,
  none, some, arith, max, ltb, get_elem?, take, true, false, Bool, if◌then◌else◌,
}
use mathlib.Core.Option.{some-injective}
use astronomy.Ir.Types.{TypeId}
use astronomy.X86.Layout.{
  Outcome, BackendError, done, failed, out_of_fuel, unsupported_type, struct_overflows, and_then,
  ok_or, align_up, checked_add, layout_from, offset_from, aligned_at,
}
use astronomy.X86.Layout.Aligned.{IsAlign, IsNext, align_up-IsNext, max-IsAlign}

pub done-injective : {A : Type 0} (x y : A) → done x ≡ done y → x ≡ y
done-injective {A = A} x y e = ap value_of e
  where
    value_of : Outcome A → A
    value_of (done v) = v
    value_of _ = x

pub and_then-parts :
    {A B : Type 0} (o : Outcome A) (f : A → Outcome B) (b : B)
    → and_then o f ≡ done b
    → (a : A) × (o ≡ done a) × (f a ≡ done b)
and_then-parts (done a) f b h = (a, refl, h)
and_then-parts (failed e) f b h = cc
and_then-parts out_of_fuel f b h = cc

ok_or-parts :
    {A : Type 0} (o : Option A) (e : BackendError) (a : A) → ok_or o e ≡ done a → o ≡ some a
ok_or-parts none e a h = cc
ok_or-parts (some x) e a h = ap some (done-injective x a h)

checked_add-parts : (a b c : ℕ) → checked_add a b ≡ some c → a + b ≡ c
checked_add-parts a b c h = go (ltb (a + b) (2 ^ 64)) h
  where
    go : (t : Bool) → (if t then some (a + b) else none) ≡ some c → a + b ≡ c
    go true e = some-injective _ _ e
    go false e = cc

module _ (align_at size_at : TypeId → Outcome ℕ)
    (aligned : (t : TypeId) (a : ℕ) → align_at t ≡ done a → IsAlign a) (ty : TypeId) where
  -- What a round of the loop finds, and where it leaves off.
  record IsPlaced (offset align : ℕ) (field : TypeId) (fields : List TypeId) (total a : ℕ)
      : Type 0 where
    field_align : ℕ
    field_size : ℕ
    start : ℕ
    align_is : align_at field ≡ done field_align
    size_is : size_at field ≡ done field_size
    start_is : align_up offset field_align ≡ some start
    end_is : checked_add start field_size ≡ some (start + field_size)
    next : IsNext offset field_align start
    rest :
        layout_from align_at size_at ty (start + field_size) (max align field_align) fields
        ≡ done (total, a)

  layout_from-IsPlaced :
      (offset align : ℕ) (field : TypeId) (fields : List TypeId) (total a : ℕ)
      → layout_from align_at size_at ty offset align (field ∷ fields) ≡ done (total, a)
      → IsPlaced offset align field fields total a
  unfolding layout_from
  layout_from-IsPlaced offset align field fields total a ran =
      let problem = unsupported_type ty struct_overflows in
      let (fa, ran_a, then_a) = and_then-parts (align_at field) _ (total, a) ran in
      let (fs, ran_s, then_s) = and_then-parts (size_at field) _ (total, a) then_a in
      let (start, ran_up, then_up) =
        and_then-parts (ok_or (align_up offset fa) problem) _ (total, a) then_s in
      let (last, ran_add, then_add) =
        and_then-parts (ok_or (checked_add start fs) problem) _ (total, a) then_up in
      let up = ok_or-parts (align_up offset fa) problem start ran_up in
      let sum = ok_or-parts (checked_add start fs) problem last ran_add in
      let same = sym (checked_add-parts start fs last sum) in
      record {
        field_align = fa;
        field_size = fs;
        start = start;
        align_is = ran_a;
        size_is = ran_s;
        start_is = up;
        end_is = sum ∙ ap some same;
        next = align_up-IsNext offset fa start (aligned field fa ran_a) up;
        rest =
            subst (λ x. layout_from align_at size_at ty x (max align fa) fields ≡ done (total, a))
              same then_add;
      }

  -- The struct ends behind the offset that the loop starts from, at a multiple of its alignment.
  pub layout_from-end :
      (offset align : ℕ) (fields : List TypeId) (total a : ℕ)
      → IsAlign align
      → layout_from align_at size_at ty offset align fields ≡ done (total, a)
      → (offset ≤ total) × (total % a ≡ 0) × IsAlign a
  unfolding layout_from
  layout_from-end offset align [] total a shape ran =
      let problem = unsupported_type ty struct_overflows in
      let (size, up, e) = and_then-parts (ok_or (align_up offset align) problem) _ (total, a) ran in
      let (le, multiple, _) =
        align_up-IsNext offset align size shape
          (ok_or-parts (align_up offset align) problem size up) in
      let pair = done-injective (size, align) (total, a) e in
      subst (λ q. (offset ≤ q.0) × (q.0 % q.1 ≡ 0) × IsAlign q.1) pair (le, multiple, shape)
  layout_from-end offset align (field ∷ fields) total a shape ran =
      let p = layout_from-IsPlaced offset align field fields total a ran in
      let (le, multiple, last) =
        layout_from-end (p.start + p.field_size) (max align p.field_align) fields total a
          (max-IsAlign align p.field_align shape (aligned field p.field_align p.align_is)) p.rest in
      (omega (arith, le, p.next.0), multiple, last)

  rest_end :
      (offset align : ℕ) (f : TypeId) (fields : List TypeId) (total a : ℕ)
      → IsAlign align
      → (p : IsPlaced offset align f fields total a)
      → (p.start + p.field_size ≤ total) × (total % a ≡ 0) × IsAlign a
  rest_end offset align f fields total a shape p =
      layout_from-end (p.start + p.field_size) (max align p.field_align) fields total a
        (max-IsAlign align p.field_align shape (aligned f p.field_align p.align_is)) p.rest

  -- Field `i`, of the fields that follow an offset: where it starts, and its alignment and size.
  pub record IsField (offset total : ℕ) (fields : List TypeId) (i : ℕ) (field : TypeId)
      (start size : ℕ) : Type 0 where
    pub align : ℕ
    pub align_is : align_at field ≡ done align
    pub size_is : size_at field ≡ done size
    pub start_is :
        and_then
          (offset_from align_at size_at ty offset (take i fields))
          (aligned_at align_at ty field)
        ≡ done start
    pub multiple : start % align ≡ 0
    pub behind : offset ≤ start
    pub inside : start + size ≤ total

  IsField-first :
      (offset align : ℕ) (f : TypeId) (fields : List TypeId) (total a : ℕ)
      → IsAlign align
      → (p : IsPlaced offset align f fields total a)
      → IsField offset total (f ∷ fields) 0 f p.start p.field_size
  unfolding offset_from
  IsField-first offset align f fields total a shape p = record {
    align = p.field_align;
    align_is = p.align_is;
    size_is = p.size_is;
    start_is = rw (p.align_is, p.start_is) refl;
    multiple = p.next.1;
    behind = p.next.0;
    inside = (rest_end offset align f fields total a shape p).0;
  }

  IsField-later :
      (offset align : ℕ) (f : TypeId) (fields : List TypeId) (total a : ℕ)
      → (p : IsPlaced offset align f fields total a) → (i : ℕ) (field : TypeId) (start size : ℕ)
      → IsField (p.start + p.field_size) total fields i field start size
      → IsField offset total (f ∷ fields) (suc i) field start size
  unfolding offset_from
  IsField-later offset align f fields total a p i field start size later = record {
    align = later.align;
    align_is = later.align_is;
    size_is = later.size_is;
    start_is = rw (p.align_is, p.start_is, p.size_is, p.end_is) later.start_is;
    multiple = later.multiple;
    behind = omega (arith, later.behind, p.next.0);
    inside = later.inside;
  }

  -- Every field of a struct that has a size lies in it.
  pub layout_from-IsField :
      (offset align : ℕ) (fields : List TypeId) (total a : ℕ)
      → IsAlign align
      → layout_from align_at size_at ty offset align fields ≡ done (total, a)
      → (i : ℕ) (field : TypeId) → get_elem? fields i ≡ some field
      → (start : ℕ) × (size : ℕ) × IsField offset total fields i field start size
  layout_from-IsField offset align [] total a shape ran i field e = cc
  layout_from-IsField offset align (f ∷ fields) total a shape ran zero field e =
      let p = layout_from-IsPlaced offset align f fields total a ran in
      subst (λ t. (start : ℕ) × (size : ℕ) × IsField offset total (f ∷ fields) 0 t start size)
        (some-injective _ _ e)
        (p.start, p.field_size, IsField-first offset align f fields total a shape p)
  layout_from-IsField offset align (f ∷ fields) total a shape ran (suc i) field e =
      let p = layout_from-IsPlaced offset align f fields total a ran in
      let (start, size, later) =
        layout_from-IsField (p.start + p.field_size) (max align p.field_align) fields total a
          (max-IsAlign align p.field_align shape (aligned f p.field_align p.align_is)) p.rest i
          field e in
      (start, size, IsField-later offset align f fields total a p i field start size later)

  -- A field ends before the fields behind it start.
  pub layout_from-apart :
      (offset align : ℕ) (fields : List TypeId) (total a : ℕ)
      → IsAlign align
      → layout_from align_at size_at ty offset align fields ≡ done (total, a)
      → (i j : ℕ) (f g : TypeId) → i < j
      → get_elem? fields i ≡ some f
      → get_elem? fields j ≡ some g
      → (start : ℕ) × (size : ℕ) × (start' : ℕ) × (size' : ℕ) × IsField offset total fields i f
          start size
        × IsField offset total fields j g start' size'
        × (start + size ≤ start')
  layout_from-apart offset align [] total a shape ran i j f g lt ef eg = cc
  layout_from-apart offset align (h ∷ fields) total a shape ran i zero f g lt ef eg =
      absurd (omega (arith, lt))
  layout_from-apart offset align (h ∷ fields) total a shape ran zero (suc j) f g lt ef eg =
      let p = layout_from-IsPlaced offset align h fields total a ran in
      let (start, size, later) =
        layout_from-IsField (p.start + p.field_size) (max align p.field_align) fields total a
          (max-IsAlign align p.field_align shape (aligned h p.field_align p.align_is)) p.rest j g
          eg in
      (
        p.start,
        p.field_size,
        start,
        size,
        subst (λ t. IsField offset total (h ∷ fields) 0 t p.start p.field_size)
            (some-injective _ _ ef) (IsField-first offset align h fields total a shape p),
        IsField-later offset align h fields total a p j g start size later,
        later.behind,
      )
  layout_from-apart offset align (h ∷ fields) total a shape ran (suc i) (suc j) f g lt ef eg =
      let p = layout_from-IsPlaced offset align h fields total a ran in
      let (s, z, s', z', one, two, before) =
        layout_from-apart (p.start + p.field_size) (max align p.field_align) fields total a
          (max-IsAlign align p.field_align shape (aligned h p.field_align p.align_is)) p.rest i j f
          g (omega (arith, lt)) ef eg in
      (
        s,
        z,
        s',
        z',
        IsField-later offset align h fields total a p i f s z one,
        IsField-later offset align h fields total a p j g s' z' two,
        before,
      )
