-- ===== src/Ir/Interner.antt =====
-- Interning tables: the common shape of `SymbolStore` (src/symbol.rs), `TypeStore` (src/types.rs)
-- and `ConstantStore` (src/constant.rs). The three are the same code at three types of entry.
pub mod Laws
use astronomy.Prelude.{
  ℕ, ◌%◌, ◌^◌, Bool, List, [], ◌∷◌, ◌++◌, Option, none, some, length, get_elem?, if◌then◌else◌,
}
use astronomy.Prelude.Eq.{PartialEq, ◌==◌}

-- `lookup` is the `HashMap` from entries to ids, as the function that its `get` computes.
pub record Store {ℓ} (A : Type ℓ) : Type ℓ where
  pub entries : List A
  pub lookup : A → Option ℕ

module _ {ℓ} {A : Type ℓ} where
  unfoldable pub new : Store A
  new = record { entries = []; lookup = λ _. none }

  unfoldable pub get : Store A → ℕ → Option A
  get s id = get_elem? s.entries id

module _ {ℓ} {A : Type ℓ} ⦃e : PartialEq A⦄ where
  -- `HashMap::insert`
  abbrev pub insert : A → ℕ → (A → Option ℕ) → A → Option ℕ
  insert key id lookup k = if key == k then some id else lookup k

  abbrev pub push : Store A → A → Store A × ℕ
  push s entry =
      let id = length s.entries % 2 ^ 32 in
      (record { entries = s.entries ++ (entry ∷ []); lookup = insert entry id s.lookup }, id)

  -- Ids are `len as u32`.
  unfoldable pub intern : Store A → A → Store A × ℕ
  intern s entry = elim (s.lookup entry) [ some id ↦ (s, id) | none ↦ push s entry ]
