-- ===== src/Arb/RoundTrip/TypeTable.antt =====
-- The type table, read back as it was written.
use astronomy.Prelude.{
  ℕ, suc, ◌*◌, ◌%◌, ◌<◌, ◌≤◌, ◌^◌, ◌≡◌, refl, sym, ap, ◌∙◌, ◌⊎◌, inl, inr, true, List, [], ◌∷◌,
  ◌++◌, some, length, get_elem?, take, take-suc, get_elem?-take, length-take, length-append, arith,
  subst, ltb, ltb-false, lt→ltb, ltb→lt, Bool-cases,
}
use astronomy.Prelude.Eq.{nat_eq, list_eq, beq_refl}
use mathlib.Core.Path.{subst₂}
use astronomy.Ir.Interner.{get, intern}
use astronomy.Ir.Types.{
  TypeData, TypeStore, scalars, new_types, type_eq, intern_type, type_at, new_types_scalars,
}
use astronomy.Ir.Constants.{constant_eq}
use astronomy.Arb.Writer
use astronomy.Arb.Writer.{◌>>◌, each, each_entry}
use astronomy.Arb.Codec.{RoundTrip, RoundTrip-tag, RoundTrip-offset, RoundTrip-weaken}
use astronomy.Arb.Codec.Lists.{RoundTrip-count}
use astronomy.Arb.Encodable.{IsType, IsTable}
use astronomy.Arb.Encode.Tables as Encode
use astronomy.Arb.Decode.Tables.{
  read_type, read_type_entry, enter_type, enough_types, read_types, is_scalar_at, table_from,
}
use astronomy.Arb.RoundTrip.Tables.{RoundTrip-type}
use astronomy.Arb.RoundTrip.Loops.{
  RoundTrip-table, each_entry-eq-each, Entry, Follows-entries, expect_id_step,
}
use astronomy.Arb.RoundTrip.Stores.{Holds, Holds-eq}
use astronomy.Ir.Types.Laws.{new_types-IsInterned}

-- While the scalar types are read, the table is the one that holds just these.
abbrev HoldsTypes : List TypeData → TypeStore → Type 0
HoldsTypes done t =
    ((length done ≤ 14) × (done ≡ take (length done) scalars) × (t ≡ new_types))
    ⊎ ((14 ≤ length done) × Holds done t)

-- Entry `i` is the scalar type of that place, or a type made of earlier ones.
abbrev TypeAt : ℕ → TypeData → Type 0
TypeAt i t = IsType i t × (i < 14 → get_elem? scalars i ≡ some t)

Holds-new_types : Holds scalars new_types
Holds-new_types = (new_types-IsInterned, new_types_scalars)

scalar_step :
    (done : List TypeData) (x : TypeData)
    → length done < 14
    → done ≡ take (length done) scalars
    → get_elem? scalars (length done) ≡ some x
    → HoldsTypes (done ++ (x ∷ [])) new_types
scalar_step done x lt e at = inl (
  omega (arith, length-append done (x ∷ [])),
  ap (λ l. l ++ (x ∷ [])) e
      ∙ sym (take-suc (length done) scalars at)
      ∙ ap (λ (k : ℕ). take k scalars)
          (let n : suc (length done) ≡ length (done ++ (x ∷ [])) =
              omega (arith, length-append done (x ∷ [])) in
            n),
  refl,
)

read_type-at :
    (i : ℕ) (x : TypeData)
    → i < 2 ^ 32
    → IsType i x
    → RoundTrip 1 (Encode.type_data x) (read_type (i % 2 ^ 32)) x
read_type-at i x small type =
    subst (λ k. RoundTrip 1 (Encode.type_data x) (read_type k) x)
      (let m : i ≡ i % 2 ^ 32 = omega arith in m) (RoundTrip-type i x (omega arith) type)

is_scalar_at-new_types :
    (i : ℕ) (x : TypeData) → get_elem? scalars i ≡ some x → is_scalar_at new_types i x ≡ true
unfolding is_scalar_at type_at get
is_scalar_at-new_types i x e =
    rw (ap (λ l. get_elem? l i) new_types_scalars ∙ e, is_scalar_at) (beq_refl x)

-- One of the first entries repeats what the table holds already.
scalar_type_step :
    (done : List TypeData) (x : TypeData)
    → length done < 14
    → done ≡ take (length done) scalars
    → length done < 2 ^ 32
    → TypeAt (length done) x
    → (t' : TypeStore) × HoldsTypes (done ++ (x ∷ [])) t'
      × RoundTrip 1 (Encode.type_data x) (read_type_entry (length done) new_types) t'
unfolding read_type_entry enter_type
scalar_type_step done x lt e small (type, at) = (
  new_types,
  scalar_step done x lt e (at lt),
  RoundTrip-offset λ n.
      RoundTrip-tag _ (read_type-at (length done) x small type)
        (rw (lt→ltb (length done) 14 lt) (rw (is_scalar_at-new_types (length done) x (at lt)))),
)

-- A later entry is new, and joins the table.
later_type_step :
    (done : List TypeData) (x : TypeData) (t : TypeStore)
    → 14 ≤ length done
    → Holds done t
    → Entry TypeAt done x
    → (t' : TypeStore) × HoldsTypes (done ++ (x ∷ [])) t'
      × RoundTrip 1 (Encode.type_data x) (read_type_entry (length done) t) t'
unfolding read_type_entry enter_type intern_type
later_type_step done x t ge (inv, e) (fresh, small, (type, at)) =
    let (_, inv', e') = expect_id_step 0 "type" t done x inv e fresh small in
    (
      (intern t x).0,
      inr (omega (arith, length-append done (x ∷ [])), (inv', e')),
      RoundTrip-offset λ n. RoundTrip-tag _ (read_type-at (length done) x small type) (
          rw (ltb-false (length done) 14 ge)
            (expect_id_step n "type" t done x inv e fresh small).0),
    )

Holds-scalars :
    (done : List TypeData) (t : TypeStore)
    → length done ≡ 14
    → done ≡ take (length done) scalars
    → t ≡ new_types
    → Holds done t
Holds-scalars done t n e same =
    let whole : done ≡ scalars = e ∙ ap (λ (k : ℕ). take k scalars) n in
    subst₂ Holds (sym whole) (sym same) Holds-new_types

type_step :
    (done : List TypeData) (x : TypeData) (t : TypeStore)
    → HoldsTypes done t
    → Entry TypeAt done x
    → (t' : TypeStore) × HoldsTypes (done ++ (x ∷ [])) t'
      × RoundTrip 1 (Encode.type_data x) (read_type_entry (length done) t) t'
type_step done x t (inr (ge, held)) entry = later_type_step done x t ge held entry
type_step done x t (inl (le, e, same)) entry = elim (Bool-cases (ltb (length done) 14)) [
  | inl lt ↦
      subst
        (λ s.
          (t' : TypeStore) × HoldsTypes (done ++ (x ∷ [])) t'
          × RoundTrip 1 (Encode.type_data x) (read_type_entry (length done) s) t')
        (sym same) (scalar_type_step done x (ltb→lt (length done) 14 lt) e entry.1 entry.2)
  | inr ge ↦
      let n : length done ≡ 14 = ground arith in
      later_type_step done x t (omega arith) (Holds-scalars done t n e same) entry
]

settled :
    (done : List TypeData) (t : TypeStore) → 14 ≤ length done → HoldsTypes done t → Holds done t
settled done t ge (inl (le, e, same)) =
    Holds-scalars done t (let n : length done ≡ 14 = omega arith in n) e same
settled done t ge (inr (_, held)) = held

enough_types-eq : (at n : ℕ) → 14 ≤ n → enough_types at n ≡ table_from read_type_entry n 0 new_types
unfolding enough_types
enough_types-eq at n h = rw (ltb-false n 14 h)

RoundTrip-type_entries :
    (s : TypeStore)
    → IsTable s
    → take (length scalars) s.entries ≡ scalars
    → ((i : ℕ) (t : TypeData) → get_elem? s.entries i ≡ some t → IsType i t)
    → (t : TypeStore) × HoldsTypes s.entries t
      × RoundTrip
          (length s.entries * 1)
          (each Encode.type_data s.entries)
          (table_from read_type_entry (length s.entries) 0 new_types)
          t
RoundTrip-type_entries s (inv, small) prefix types =
    RoundTrip-table 1 Encode.type_data read_type_entry HoldsTypes (Entry TypeAt) type_step s.entries
      [] new_types (inl (omega arith, refl, refl))
      (Follows-entries s TypeAt inv small (λ i x e. (
        types i x e,
        λ lt. ap (λ l. get_elem? l i) (sym prefix) ∙ get_elem?-take 14 s.entries i lt ∙ e,
      )))

-- A valid type table of less than 2 ^ 32 entries, with the scalars in front and each entry well formed over the earlier ones, is read back as the same table from what `write` appends for it.
pub RoundTrip-types :
    (s : TypeStore)
    → IsTable s
    → take (length scalars) s.entries ≡ scalars
    → ((i : ℕ) (t : TypeData) → get_elem? s.entries i ≡ some t → IsType i t)
    → RoundTrip 4
        (Writer.len (length s.entries) >> each_entry Encode.type_data s (length s.entries) 0)
        read_types
        s
unfolding read_types
RoundTrip-types s table prefix types =
    let (t, held, trip) = RoundTrip-type_entries s table prefix types in
    let many : 14 ≤ length s.entries = omega (arith, ap length prefix, length-take 14 s.entries) in
    let same : t ≡ s = Holds-eq s t table.0 (settled s.entries t many held) in
    rw (each_entry-eq-each Encode.type_data s (omega arith)) (
      subst (RoundTrip 4 _ read_types) same (
        RoundTrip-weaken 4
          (RoundTrip-offset λ n. RoundTrip-count 1 _ _ (omega arith) (
            subst (λ r. RoundTrip (length s.entries * 1) (each Encode.type_data s.entries) r t)
              (sym (enough_types-eq n (length s.entries) many)) trip))
          (omega arith)))
