-- ===== src/Ir/Tests.antt =====
-- The interning tables on two names.
use astronomy.Prelude.{◌≡◌, refl, ◌↔◌, [], ◌∷◌, some, true, length, arith}
use mathlib.Core.List.Memᴰ
use astronomy.Prelude.Eq.{nat_eq, list_eq}
use astronomy.Ir.Interner.{Store, new, get, intern}
use astronomy.Ir.Interner.Laws.{
  IsInterned, new-IsInterned, intern-IsInterned, get-intern, get-intern_kept, intern-intern,
  intern_eq_iff,
}
use astronomy.Ir.Types.{TypeData, intern_type, type_at, intern_all, new_types}
use astronomy.Ir.Types.Laws.{type_at-scalar_ids}
use astronomy.Ir.Constants.{mask_unsigned}
use astronomy.Ir.Constants.Masks.{IsRemainder, mask_unsigned-IsRemainder}
use astronomy.Ir.Modules.{Name}

abbrev main : Name
main = b'm' ∷ b'a' ∷ b'i' ∷ b'n' ∷ []

abbrev puts : Name
puts = b'p' ∷ b'u' ∷ b't' ∷ b's' ∷ []

abbrev one : Store Name
one = (intern new main).0

one-IsInterned : IsInterned one
unfolding new
one-IsInterned = intern-IsInterned new main (omega arith) new-IsInterned

-- `puts` is added behind `main`.
intern-IsInterned_example : IsInterned (intern one puts).0
unfolding intern new
intern-IsInterned_example = intern-IsInterned one puts (omega arith) one-IsInterned

get-intern_example : get (intern one puts).0 (intern one puts).1 ≡ some puts
unfolding intern new
get-intern_example = get-intern one puts (omega arith) one-IsInterned

get-intern_kept_example : get (intern one puts).0 0 ≡ some main
unfolding intern new get
get-intern_kept_example = get-intern_kept one puts main 0 refl

intern-intern_example : intern (intern one puts).0 puts ≡ ((intern one puts).0, (intern one puts).1)
intern-intern_example = intern-intern one puts

intern_eq_iff_example : ((intern one puts).1 ≡ (intern (intern one puts).0 main).1) ↔ (puts ≡ main)
unfolding intern new
intern_eq_iff_example = intern_eq_iff one puts main (omega arith) one-IsInterned

mask_unsigned-IsRemainder_example : IsRemainder 0xfffffffb 8 (mask_unsigned 0xfffffffb 8)
mask_unsigned-IsRemainder_example =
    mask_unsigned-IsRemainder 0xfffffffb 8 (omega arith) (omega arith)

-- A pointer type is interned behind the scalar types, and an i32 then.
type_at-scalar_ids_example :
    (length new_types.entries ≡ 14)
    × (type_at (intern_all new_types (TypeData.pointer 4 0 ∷ [])) 4 ≡ some (TypeData.int 32 true))
    × (intern_type (intern_all new_types (TypeData.pointer 4 0 ∷ [])) (TypeData.int 32 true)
        ≡ (intern_all new_types (TypeData.pointer 4 0 ∷ []), 4))
type_at-scalar_ids_example =
    type_at-scalar_ids (TypeData.pointer 4 0 ∷ []) 4 (TypeData.int 32 true) (omega arith)
      (Memᴰ.tail (Memᴰ.tail (Memᴰ.tail (Memᴰ.tail (Memᴰ.head refl)))))
