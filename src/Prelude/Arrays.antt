-- ===== src/Prelude/Arrays.antt =====
-- A `Vec` that is read and written at indices.
use Prim.Native.Nat.{ℕ, zero, suc, ◌<◌}
use mathlib.Core.Path.{◌≡◌, refl, ap}
use mathlib.Core.Logic.{◌≢◌}
use mathlib.Core.List.{List, [], ◌∷◌}
use native.Mathlib.Omega.{arith}
use astronomy.Prelude.Lists.{length}

module _ {ℓ} {A : Type ℓ} where
  -- The entry at an index, or `d` where the index is out of range.
  abbrev pub at_or : A → List A → ℕ → A
  at_or d [] i = d
  at_or d (x ∷ xs) zero = x
  at_or d (x ∷ xs) (suc i) = at_or d xs i

  abbrev pub write : ℕ → A → List A → List A
  write i a [] = []
  write zero a (x ∷ xs) = a ∷ xs
  write (suc i) a (x ∷ xs) = x ∷ write i a xs

  -- `vec![a; n]`
  abbrev pub filled : ℕ → A → List A
  filled zero a = []
  filled (suc n) a = a ∷ filled n a

  pub length-filled : (n : ℕ) (a : A) → length (filled n a) ≡ n
  length-filled zero a = refl
  length-filled (suc n) a = ap suc (length-filled n a)

  pub at_or-filled : (n : ℕ) (a : A) (i : ℕ) → at_or a (filled n a) i ≡ a
  at_or-filled zero a i = refl
  at_or-filled (suc n) a zero = refl
  at_or-filled (suc n) a (suc i) = at_or-filled n a i

  pub length-write : (i : ℕ) (a : A) (xs : List A) → length (write i a xs) ≡ length xs
  length-write i a [] = refl
  length-write zero a (x ∷ xs) = refl
  length-write (suc i) a (x ∷ xs) = ap suc (length-write i a xs)

  pub at_or-write_same :
      (d : A) (i : ℕ) (a : A) (xs : List A) → i < length xs → at_or d (write i a xs) i ≡ a
  at_or-write_same d i a [] h = absurd (omega arith)
  at_or-write_same d zero a (x ∷ xs) h = refl
  at_or-write_same d (suc i) a (x ∷ xs) h = at_or-write_same d i a xs (omega arith)

  pub at_or-write_other :
      (d : A) (i j : ℕ) (a : A) (xs : List A) → i ≢ j → at_or d (write i a xs) j ≡ at_or d xs j
  at_or-write_other d i j a [] h = refl
  at_or-write_other d zero zero a (x ∷ xs) h = absurd (h refl)
  at_or-write_other d zero (suc j) a (x ∷ xs) h = refl
  at_or-write_other d (suc i) zero a (x ∷ xs) h = refl
  at_or-write_other d (suc i) (suc j) a (x ∷ xs) h =
      at_or-write_other d i j a xs (λ e. h (ap suc e))
