-- ===== src/Ir/Types/Laws.antt =====
-- `TypeStore::new` (src/types.rs) makes a valid interning table, in which the constants of `TypeId`
-- (src/id.rs) are the ids of the scalar types.
use astronomy.Prelude.{
  ◌+◌, ◌≤◌, ◌^◌, ◌≡◌, refl, sym, ap, ◌∙◌, subst, List, [], ◌∷◌, some, length, get_elem?, All, arith,
}
use mathlib.Core.Logic.{⊎_elim}
use mathlib.Core.List.{Memᴰ}
use mathlib.Core.List.Memᴰ
use astronomy.Ir.Interner.{new, get}
use astronomy.Ir.Interner.Laws.{
  IsInterned, new-IsInterned, intern-IsInterned, length-intern, get-intern_kept, intern_found,
}
use astronomy.Ir.Types.{
  type_eq, TypeId, TypeData, TypeStore, intern_type, type_at, intern_all, new_types, scalars,
  scalar_ids, new_types_scalars,
}

intern_all-IsInterned :
    (s : TypeStore) (ts : List TypeData)
    → length s.entries + length ts ≤ 2 ^ 32
    → IsInterned s
    → IsInterned (intern_all s ts)
unfolding intern_all intern_type
intern_all-IsInterned s [] room h = h
intern_all-IsInterned s (t ∷ ts) room h =
    intern_all-IsInterned (intern_type s t).0 ts (omega (arith, length-intern s t))
      (intern-IsInterned s t (omega arith) h)

-- The table that `TypeStore::new` builds is valid: it holds no type twice, and finds each.
pub new_types-IsInterned : IsInterned new_types
unfolding new_types new
new_types-IsInterned = intern_all-IsInterned new scalars (omega arith) new-IsInterned

type_at-intern_all :
    (s : TypeStore) (ts : List TypeData) (id : TypeId) (t : TypeData)
    → type_at s id ≡ some t
    → type_at (intern_all s ts) id ≡ some t
unfolding intern_all intern_type type_at
type_at-intern_all s [] id t h = h
type_at-intern_all s (x ∷ ts) id t h =
    type_at-intern_all (intern_type s x).0 ts id t (get-intern_kept s x t id h)

All-Memᴰ : {A : Type 0} (P : A → Type 0) (xs : List A) → All P xs → (x : A) → Memᴰ x xs → P x
All-Memᴰ P [] all x m = absurd (Memᴰ.not-nil m)
All-Memᴰ P (y ∷ xs) (p, all) x m =
    ⊎_elim (λ e. subst P (sym e) p) (All-Memᴰ P xs all x) (Memᴰ.cases_cons m)

type_at-new_types :
    (id : TypeId) (t : TypeData) → Memᴰ (id, t) scalar_ids → type_at new_types id ≡ some t
unfolding type_at get
type_at-new_types id t m =
    let listed : All (λ (p : TypeId × TypeData). get_elem? scalars p.0 ≡ some p.1) scalar_ids = (
      refl,
      (
        refl,
        (
          refl,
          (
            refl,
            (refl, (refl, (refl, (refl, (refl, (refl, (refl, (refl, (refl, (refl, tt)))))))))),
          ),
        ),
      ),
    ) in
    ap (λ l. get_elem? l id) new_types_scalars
    ∙ All-Memᴰ (λ (p : TypeId × TypeData). get_elem? scalars p.0 ≡ some p.1) scalar_ids listed
        (id, t) m

-- `TypeStore::new` holds 14 types. Whatever types are interned after it, up to 2 ^ 32 in all, each constant of `TypeId` looks up the scalar type that it stands for, and interning that type gives the constant and leaves the table as it is.
pub type_at-scalar_ids :
    (ts : List TypeData) (id : TypeId) (t : TypeData)
    → 14 + length ts ≤ 2 ^ 32
    → Memᴰ (id, t) scalar_ids
    → (length new_types.entries ≡ 14)
      × (type_at (intern_all new_types ts) id ≡ some t)
      × (intern_type (intern_all new_types ts) t ≡ (intern_all new_types ts, id))
unfolding type_at get intern_type
type_at-scalar_ids ts id t room m =
    let size : length new_types.entries ≡ 14 = ap length new_types_scalars in
    let valid =
      intern_all-IsInterned new_types ts (omega (arith, size, room)) new_types-IsInterned in
    let found = type_at-intern_all new_types ts id t (type_at-new_types id t m) in
    (size, found, intern_found (intern_all new_types ts) t id (valid.full t id found))
