-- ===== src/Ir/Types.antt =====
-- Types and the type table (src/types.rs), and the ids of the scalar types (src/id.rs).
pub mod Laws
use astronomy.Prelude.{
  ℕ, ◌≡◌, refl, ◌↔◌, Bool, true, false, ◌&&◌, ◌||◌, List, [], ◌∷◌, Option, arith, leb,
}
use astronomy.Prelude.Eq.{PartialEq, ◌==◌, nat_eq, list_eq, bool_beq, list_beq_iff}
use astronomy.Ir.Interner.{Store, new, get, intern}

abbrev pub TypeId : Type 0
TypeId = ℕ

pub data FloatKind : Type 0 where
  f32 f64 : FloatKind

pub data TypeData : Type 0 where
  void : TypeData
  int : (bits : ℕ) (signed : Bool) → TypeData
  float : (kind : FloatKind) → TypeData
  pointer : (pointee : TypeId) (address_space : ℕ) → TypeData
  array : (element : TypeId) (length : ℕ) → TypeData
  struct : (fields : List TypeId) → TypeData
  function : (params : List TypeId) (variadic : Bool) (result : TypeId) → TypeData

-- `derive(PartialEq)`
abbrev float_beq : FloatKind → FloatKind → Bool
float_beq f32 f32 = true
float_beq f64 f64 = true
float_beq _ _ = false

abbrev type_beq : TypeData → TypeData → Bool
type_beq void void = true
type_beq (int b s) (int b' s') = b == b' && bool_beq s s'
type_beq (float k) (float k') = float_beq k k'
type_beq (pointer p a) (pointer p' a') = p == p' && a == a'
type_beq (array e n) (array e' n') = e == e' && n == n'
type_beq (struct fs) (struct fs') = fs == fs'
type_beq (function ps v r) (function ps' v' r') = ps == ps' && (bool_beq v v' && r == r')
type_beq _ _ = false

pub type_beq_iff : (a b : TypeData) → (type_beq a b ≡ true) ↔ (a ≡ b)
type_beq_iff (struct fs) (struct fs') = ground (arith, list_beq_iff fs fs')
type_beq_iff (function ps v r) (function ps' v' r') = ground (arith, list_beq_iff ps ps')
type_beq_iff _ _ = ground arith

instance abbrev pub type_eq : PartialEq TypeData
type_eq = record { same = type_beq; same_iff = type_beq_iff }

is_integer : TypeData → Bool
is_integer (int _ _) = true
is_integer _ = false

unfoldable pub is_arith_integer : TypeData → Bool
is_arith_integer (int bits _) = leb 8 bits
is_arith_integer _ = false

unfoldable pub is_float : TypeData → Bool
is_float (float _) = true
is_float _ = false

unfoldable pub is_pointer : TypeData → Bool
is_pointer (pointer _ _) = true
is_pointer _ = false

unfoldable pub is_aggregate : TypeData → Bool
is_aggregate (struct _) = true
is_aggregate (array _ _) = true
is_aggregate _ = false

unfoldable pub is_void : TypeData → Bool
is_void void = true
is_void _ = false

unfoldable pub is_first_class : TypeData → Bool
unfolding is_integer is_float is_pointer is_aggregate
is_first_class t = is_integer t || (is_float t || (is_pointer t || is_aggregate t))

abbrev pub TypeStore : Type 0
TypeStore = Store TypeData

unfoldable pub intern_type : TypeStore → TypeData → TypeStore × TypeId
intern_type s t = intern s t

-- `TypeStore::get`
unfoldable pub type_at : TypeStore → TypeId → Option TypeData
unfolding get
type_at s id = get s id

-- The scalar types, in the order of the constants `TypeId::VOID` .. `TypeId::F64`.
abbrev pub scalars : List TypeData
scalars =
    void
    ∷ int 1 false
    ∷ int 8 true
    ∷ int 16 true
    ∷ int 32 true
    ∷ int 64 true
    ∷ int 128 true
    ∷ int 8 false
    ∷ int 16 false
    ∷ int 32 false
    ∷ int 64 false
    ∷ int 128 false
    ∷ float f32
    ∷ float f64
    ∷ []

-- The constants of `TypeId`, each with the type that it stands for.
abbrev pub scalar_ids : List (TypeId × TypeData)
scalar_ids =
    (0, void)
    ∷ (1, int 1 false)
    ∷ (2, int 8 true)
    ∷ (3, int 16 true)
    ∷ (4, int 32 true)
    ∷ (5, int 64 true)
    ∷ (6, int 128 true)
    ∷ (7, int 8 false)
    ∷ (8, int 16 false)
    ∷ (9, int 32 false)
    ∷ (10, int 64 false)
    ∷ (11, int 128 false)
    ∷ (12, float f32)
    ∷ (13, float f64)
    ∷ []

unfoldable pub intern_all : TypeStore → List TypeData → TypeStore
intern_all s [] = s
intern_all s (t ∷ ts) = intern_all (intern_type s t).0 ts

-- `TypeStore::new`
unfoldable pub new_types : TypeStore
new_types = intern_all new scalars

pub new_types_scalars : new_types.entries ≡ scalars
unfolding new_types intern_all intern_type intern new
new_types_scalars = refl
