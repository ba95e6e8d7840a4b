-- ===== src/Arb/Sound/Types.antt =====
-- The type table of an accepted file: `read_types` (src/binary/reader.rs) keeps it acyclic.
use astronomy.Prelude.{
  ℕ, zero, suc, ◌+◌, ◌-◌, ◌%◌, ◌^◌, ◌<◌, ◌≤◌, ◌≡◌, ◌≢◌, refl, sym, ap, ◌∙◌, subst, true, ◌&&◌, ◌||◌,
  List, [], ◌∷◌, ◌++◌, none, some, arith, length, take, get_elem?, All, All-get_elem?, ltb, leb,
  ltb→lt, ◌==◌, ==_iff, Option-cases, inl, inr, length-append, get_elem?-lt, not, String,
}
use astronomy.Ir.Interner.{intern}
use astronomy.Ir.Interner.Laws.{
  IsInterned, intern-IsInterned, intern_found, intern_fresh, get_elem?-concat,
}
use astronomy.Ir.Types.{
  TypeData, TypeStore, type_eq, intern_type, new_types, new_types_scalars, scalars,
}
use astronomy.Ir.Types.Laws.{new_types-IsInterned}
use astronomy.Arb.Cursor.{Reader}
use astronomy.Arb.Decode.Tables.{
  is_scalar_at, expect_id, table_from, earlier, all_earlier, read_int_type, read_float_type,
  read_pointer_type, read_array_type, read_struct_type, read_function_type, read_type_body,
  read_type, enter_type, read_type_entry, enough_types, read_types,
}
use astronomy.Arb.Tags.TypeTag
use astronomy.Arb.Sound.{
  Ensures, Ensures-pure, Ensures-fail, Ensures-if, Ensures-bind, Ensures-any, Ensures-weaken,
}

-- A type at `index`: made of types before it, of a width that exists.
abbrev pub IsWellFounded : ℕ → TypeData → Type 0
IsWellFounded index (TypeData.int bits signed) =
    (1 ≤ bits) × (bits ≤ 128) × (signed ≡ true → bits ≢ 1)
IsWellFounded index (TypeData.pointer pointee address_space) = pointee < index
IsWellFounded index (TypeData.array element count) = element < index
IsWellFounded index (TypeData.struct fields) = All (λ f. f < index) fields
IsWellFounded index (TypeData.function params variadic result) =
    All (λ p. p < index) params × (result < index)
IsWellFounded index _ = Unit {0}

Ensures-earlier : (at index id : ℕ) → Ensures (λ t. t < index) (earlier at index id)
unfolding earlier
Ensures-earlier at index id =
    Ensures-if (ltb id index) (λ h. Ensures-pure id (ltb→lt id index h)) (λ h. Ensures-fail _)

Ensures-all_earlier :
    (at index : ℕ) (ids : List ℕ) → Ensures (All (λ t. t < index)) (all_earlier at index ids)
unfolding all_earlier
Ensures-all_earlier at index [] = Ensures-pure [] tt
Ensures-all_earlier at index (id ∷ more) =
    Ensures-bind (λ t. t < index) (Ensures-earlier at index id)
      (λ t ht.
        Ensures-bind (All (λ t. t < index)) (Ensures-all_earlier at index more)
          (λ ts hts. Ensures-pure (t ∷ ts) (ht, hts)))

module _ (at index : ℕ) where
  Ensures-int_type : Ensures (IsWellFounded index) read_int_type
  unfolding read_int_type
  Ensures-int_type = Ensures-any _ λ bits_at. Ensures-any _ λ bits. Ensures-any _ λ signed.
      Ensures-if (not (leb 1 bits && leb bits 128) || (bits == 1 && signed)) (λ h. Ensures-fail _)
        (λ h. Ensures-pure (TypeData.int bits signed) (ground arith))

  Ensures-float_type : Ensures (IsWellFounded index) read_float_type
  unfolding read_float_type
  Ensures-float_type = Ensures-any _ λ kind_at. Ensures-any _ λ kind.
      Ensures-if (kind == 0) (λ _. Ensures-pure _ tt)
        (λ _. Ensures-if (kind == 1) (λ _. Ensures-pure _ tt) (λ _. Ensures-fail _))

  Ensures-pointer_type : Ensures (IsWellFounded index) (read_pointer_type at index)
  unfolding read_pointer_type
  Ensures-pointer_type = Ensures-any _ λ id.
      Ensures-bind _ (Ensures-earlier at index id)
        λ pointee h. Ensures-any _ λ space. Ensures-pure _ h

  Ensures-array_type : Ensures (IsWellFounded index) (read_array_type at index)
  unfolding read_array_type
  Ensures-array_type = Ensures-any _ λ id.
      Ensures-bind _ (Ensures-earlier at index id)
        λ element h. Ensures-any _ λ count. Ensures-pure _ h

  Ensures-struct_type : Ensures (IsWellFounded index) (read_struct_type at index)
  unfolding read_struct_type
  Ensures-struct_type =
      Ensures-any _
        λ listed. Ensures-bind _ (Ensures-all_earlier at index listed) λ fields h. Ensures-pure _ h

  Ensures-function_type : Ensures (IsWellFounded index) (read_function_type at index)
  unfolding read_function_type
  Ensures-function_type = Ensures-any _ λ listed.
      Ensures-bind _ (Ensures-all_earlier at index listed) λ params hs. Ensures-any _ λ variadic.
        Ensures-any _ λ id.
          Ensures-bind _ (Ensures-earlier at index id)
            λ result h. Ensures-pure (TypeData.function params variadic result) (hs, h)

-- Whatever `read_type` returns refers only to types before its own.
pub Ensures-type : (index : ℕ) → Ensures (IsWellFounded index) (read_type index)
unfolding read_type read_type_body
Ensures-type index = Ensures-any _ λ at. Ensures-any _ λ tag_at. Ensures-any _ λ tag.
    Ensures-if (tag == TypeTag.void) (λ _. Ensures-pure _ tt)
      (λ _.
        Ensures-if (tag == TypeTag.int) (λ _. Ensures-int_type at index)
          (λ _.
            Ensures-if (tag == TypeTag.float) (λ _. Ensures-float_type at index)
              (λ _.
                Ensures-if (tag == TypeTag.pointer) (λ _. Ensures-pointer_type at index)
                  (λ _.
                    Ensures-if (tag == TypeTag.array) (λ _. Ensures-array_type at index)
                      (λ _.
                        Ensures-if (tag == TypeTag.struct) (λ _. Ensures-struct_type at index)
                          (λ _.
                            Ensures-if (tag == TypeTag.function)
                              (λ _. Ensures-function_type at index) (λ _. Ensures-fail _)))))))

-- The table after `i` rounds of the loop: valid, acyclic, with the scalars in front, and filled as far as the loop has come.
record IsPartial (i : ℕ) (s : TypeStore) : Type 0 where
  interned : IsInterned s
  acyclic : (j : ℕ) (t : TypeData) → get_elem? s.entries j ≡ some t → IsWellFounded j t
  size : length s.entries ≡ 14 + (i - 14)
  front : take 14 s.entries ≡ scalars

pub Ensures-expect_id :
    {S : Type 0} (P : S → Type 0) (at i : ℕ) (table : String) (p : S × ℕ)
    → (p.1 ≡ i → P p.0)
    → Ensures P (expect_id at i table p)
unfolding expect_id
Ensures-expect_id P at i table (store, id) h =
    Ensures-if (id == i) (λ e. Ensures-pure store (h ((==_iff id i).0 e))) (λ _. Ensures-fail _)

take-append_le :
    {A : Type 0} (n : ℕ) (xs ys : List A) → n ≤ length xs → take n (xs ++ ys) ≡ take n xs
take-append_le zero xs ys h = refl
take-append_le (suc n) [] ys h = absurd (omega arith)
take-append_le (suc n) (x ∷ xs) ys h = ap (λ l. x ∷ l) (take-append_le n xs ys (omega arith))

-- Where a type gets the id of its place, it is a new one, and ids still fit `u32`.
interned_new :
    (i : ℕ) (s : TypeStore) (t : TypeData)
    → 14 ≤ i
    → IsPartial i s
    → (intern_type s t).1 ≡ i
    → (s.lookup t ≡ none) × (length s.entries < 2 ^ 32)
unfolding intern_type intern
interned_new i s t late h e = elim (Option-cases (s.lookup t)) [
  | inr (id, p) ↦
      let at : id ≡ i = sym (ap (λ q. q.1) (intern_found s t id p)) ∙ e in
      absurd (omega (arith, get_elem?-lt s.entries id (h.interned.sound t id p), h.size))
  | inl fresh ↦
      let at : length s.entries % 2 ^ 32 ≡ i = rw (fresh, intern) at e in
      (fresh, omega (arith, h.size))
]

push-IsPartial :
    (i : ℕ) (s : TypeStore) (t : TypeData)
    → 14 ≤ i
    → IsPartial i s
    → IsWellFounded i t
    → (intern_type s t).1 ≡ i
    → IsPartial (i + 1) (intern_type s t).0
unfolding intern_type
push-IsPartial i s t late h type e =
    let (fresh, room) = interned_new i s t late h e in
    let (grown, _) = intern_fresh s t fresh room in
    let at : i ≡ length s.entries = omega (arith, h.size) in
    record {
      interned = intern-IsInterned s t room h.interned;
      acyclic = λ j u p.
          elim (get_elem?-concat s.entries t j (ap (λ l. get_elem? l j) (sym grown) ∙ p)) [
            | inl (lt, q) ↦ h.acyclic j u q
            | inr (last, same) ↦
                subst (IsWellFounded j) (sym same)
                  (subst (λ k. IsWellFounded k t) (at ∙ sym last) type)
          ];
      size = omega (arith, ap length grown, length-append s.entries (t ∷ []), h.size);
      front =
          ap (take 14) grown
          ∙ take-append_le 14 s.entries (t ∷ []) (omega (arith, h.size))
          ∙ h.front;
    }

All-lt_mono : (i k : ℕ) (ids : List ℕ) → i ≤ k → All (λ t. t < i) ids → All (λ t. t < k) ids
All-lt_mono i k [] h all = tt
All-lt_mono i k (id ∷ ids) h (lt, all) = (omega arith, All-lt_mono i k ids h all)

IsWellFounded-mono : (i k : ℕ) (t : TypeData) → i ≤ k → IsWellFounded i t → IsWellFounded k t
IsWellFounded-mono i k TypeData.void h w = tt
IsWellFounded-mono i k (TypeData.int bits signed) h w = w
IsWellFounded-mono i k (TypeData.float kind) h w = tt
IsWellFounded-mono i k (TypeData.pointer pointee space) h w = omega arith
IsWellFounded-mono i k (TypeData.array element count) h w = omega arith
IsWellFounded-mono i k (TypeData.struct fields) h w = All-lt_mono i k fields h w
IsWellFounded-mono i k (TypeData.function params variadic result) h (ws, w) =
    (All-lt_mono i k params h ws, omega arith)

Ensures-type_entry :
    (i : ℕ) (s : TypeStore) → IsPartial i s → Ensures (IsPartial (i + 1)) (read_type_entry i s)
unfolding read_type_entry enter_type
Ensures-type_entry i s h = Ensures-any _ λ at.
    Ensures-bind (IsWellFounded (i % 2 ^ 32)) (Ensures-type (i % 2 ^ 32)) λ t type.
      Ensures-if (ltb i 14)
        (λ early.
          let below = ltb→lt i 14 early in
          Ensures-if (is_scalar_at s i t)
            (λ _. Ensures-pure s (record {
              interned = h.interned;
              acyclic = h.acyclic;
              size = omega (arith, h.size);
              front = h.front;
            }))
            (λ _. Ensures-fail _))
        (λ late. Ensures-expect_id (IsPartial (i + 1)) at i "type" (intern_type s t) (
          push-IsPartial i s t (ground arith) h
            (IsWellFounded-mono (i % 2 ^ 32) i t (omega arith) type)))

pub Ensures-table_from :
    {S : Type 0} (P : ℕ → S → Type 0) (read : ℕ → S → Reader S)
    → ((i : ℕ) (s : S) → P i s → Ensures (P (i + 1)) (read i s))
    → (n i : ℕ) (s : S) → P i s
    → Ensures (λ t. P (i + n) t) (table_from read n i s)
unfolding table_from
Ensures-table_from P read step zero i s h =
    Ensures-pure s (subst (λ k. P k s) (let k : i ≡ i + 0 = omega arith in k) h)
Ensures-table_from P read step (suc n) i s h = Ensures-bind (P (i + 1)) (step i s h) λ t ht.
    subst (λ (k : ℕ). Ensures (P k) (table_from read n (i + 1) t))
      (let k : i + 1 + n ≡ i + suc n = omega arith in k)
      (Ensures-table_from P read step n (i + 1) t ht)

scalars-IsWellFounded : (j : ℕ) (t : TypeData) → get_elem? scalars j ≡ some t → IsWellFounded j t
scalars-IsWellFounded j t e = All-get_elem? (IsWellFounded j) scalars (ground arith) j t e

new_types-IsPartial : IsPartial 0 new_types
new_types-IsPartial = record {
  interned = new_types-IsInterned;
  acyclic =
      λ j t e. scalars-IsWellFounded j t (ap (λ l. get_elem? l j) (sym new_types_scalars) ∙ e);
  size = ap length new_types_scalars ∙ omega arith;
  front = ap (take 14) new_types_scalars;
}

-- The type tables that the rest of the program relies on: no type twice, the scalars in front, and no type that refers to itself or a later one.
pub record IsAcyclic (s : TypeStore) : Type 0 where
  pub interned : IsInterned s
  pub acyclic : (j : ℕ) (t : TypeData) → get_elem? s.entries j ≡ some t → IsWellFounded j t
  pub front : take 14 s.entries ≡ scalars

pub Ensures-types : Ensures IsAcyclic read_types
unfolding read_types enough_types
Ensures-types = Ensures-any _ λ at. Ensures-any _ λ n.
    Ensures-if (ltb n 14) (λ _. Ensures-fail _)
      (λ _.
        Ensures-weaken IsAcyclic
          (Ensures-table_from IsPartial read_type_entry Ensures-type_entry n 0 new_types
            new_types-IsPartial)
          (λ s h. record { interned = h.interned; acyclic = h.acyclic; front = h.front }))
