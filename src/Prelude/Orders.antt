-- ===== src/Prelude/Orders.antt =====
-- Lists without repetition, as orders: membership and precedence where an entry is inserted.
use Prim.Native.Nat.{ℕ, zero, suc, ◌<◌}
use mathlib.Core.Path.{◌≡◌, refl, sym}
use mathlib.Core.Logic.{◌⊎◌, inl, inr, ◌↔◌, ⊎_elim}
use mathlib.Core.List.{List, [], ◌∷◌, ◌++◌, Memᴰ}
use mathlib.Core.List.Memᴰ
use native.Mathlib.Omega.{arith}
use astronomy.Prelude.Lists.{length}
use astronomy.Prelude.Arrays.{at_or}

module _ {A : Type 0} where
  -- `v` stands in the list, and `u` behind it.
  abbrev pub Precedes : A → A → List A → Type 0
  Precedes v u [] = ⊥
  Precedes v u (x ∷ xs) = ((v ≡ x) × Memᴰ u xs) ⊎ Precedes v u xs

  abbrev pub Distinct : List A → Type 0
  Distinct [] = Unit {0}
  Distinct (x ∷ xs) = (¬ Memᴰ x xs) × Distinct xs

  pub Memᴰ-insert :
      (a x : A) (xs ys : List A) → Memᴰ a (xs ++ (x ∷ ys)) ↔ ((a ≡ x) ⊎ Memᴰ a (xs ++ ys))
  Memᴰ-insert a x [] ys = (Memᴰ.cases_cons, ⊎_elim Memᴰ.head Memᴰ.tail)
  Memᴰ-insert a x (y ∷ xs) ys = (
    λ m.
        ⊎_elim (λ e. inr (Memᴰ.head e))
          (λ later. ⊎_elim inl (λ n. inr (Memᴰ.tail n)) ((Memᴰ-insert a x xs ys).0 later))
          (Memᴰ.cases_cons m),
    ⊎_elim (λ e. Memᴰ.tail ((Memᴰ-insert a x xs ys).1 (inl e)))
        (λ m.
          ⊎_elim Memᴰ.head (λ n. Memᴰ.tail ((Memᴰ-insert a x xs ys).1 (inr n)))
            (Memᴰ.cases_cons m)),
  )

  pub Precedes-insert :
      (v u x : A) (xs ys : List A) → Precedes v u (xs ++ ys) → Precedes v u (xs ++ (x ∷ ys))
  Precedes-insert v u x [] ys h = inr h
  Precedes-insert v u x (y ∷ xs) ys (inl (e, m)) = inl (e, (Memᴰ-insert u x xs ys).1 (inr m))
  Precedes-insert v u x (y ∷ xs) ys (inr h) = inr (Precedes-insert v u x xs ys h)

  -- An entry that is inserted precedes those behind it.
  pub Precedes-inserted : (u x : A) (xs ys : List A) → Memᴰ u ys → Precedes x u (xs ++ (x ∷ ys))
  Precedes-inserted u x [] ys m = inl (refl, m)
  Precedes-inserted u x (y ∷ xs) ys m = inr (Precedes-inserted u x xs ys m)

  pub Distinct-insert :
      (x : A) (xs ys : List A)
      → ¬ Memᴰ x (xs ++ ys)
      → Distinct (xs ++ ys)
      → Distinct (xs ++ (x ∷ ys))
  Distinct-insert x [] ys fresh h = (fresh, h)
  Distinct-insert x (y ∷ xs) ys fresh (first, h) = (
    λ m. ⊎_elim (λ e. fresh (Memᴰ.head (sym e))) first ((Memᴰ-insert y x xs ys).0 m),
    Distinct-insert x xs ys (λ m. fresh (Memᴰ.tail m)) h,
  )

  pub Memᴰ-at_or :
      (d a : A) (xs : List A) → Memᴰ a xs → (i : ℕ) × (i < length xs) × (at_or d xs i ≡ a)
  Memᴰ-at_or d a [] m = absurd (Memᴰ.not-nil m)
  Memᴰ-at_or d a (x ∷ xs) m =
      ⊎_elim (λ e. (0, omega arith, sym e))
        (λ n. let (i, lt, e) = Memᴰ-at_or d a xs n in (suc i, omega arith, e)) (Memᴰ.cases_cons m)

  pub at_or-Memᴰ : (d : A) (xs : List A) (i : ℕ) → i < length xs → Memᴰ (at_or d xs i) xs
  at_or-Memᴰ d [] i h = absurd (omega arith)
  at_or-Memᴰ d (x ∷ xs) zero h = Memᴰ.head refl
  at_or-Memᴰ d (x ∷ xs) (suc i) h = Memᴰ.tail (at_or-Memᴰ d xs i (omega arith))
