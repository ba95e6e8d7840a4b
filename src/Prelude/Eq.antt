-- ===== src/Prelude/Eq.antt =====
-- Decided equality: what `derive(PartialEq, Eq)` gives a Rust type.
use astronomy.Prelude.Tests.{◌==◌ as nat_beq, ==_iff}
use Prim.Native.Nat.{ℕ}
use mathlib.Core.Path.{◌≡◌, refl}
use mathlib.Core.Logic.{◌↔◌}
use mathlib.Core.Bool.{Bool, true, false, ◌&&◌}
use mathlib.Core.List.{List, [], ◌∷◌}
use native.Mathlib.Omega.{arith}

abbrev pub bool_beq : Bool → Bool → Bool
bool_beq true b = b
bool_beq false true = false
bool_beq false false = true

pub bool_beq_iff : (a b : Bool) → (bool_beq a b ≡ true) ↔ (a ≡ b)
bool_beq_iff a b = ground arith

-- `==` of the trait, which decides equality.
pub record PartialEq {ℓ} (T : Type ℓ) : Type ℓ where
  pub same : T → T → Bool
  pub same_iff : (x y : T) → (same x y ≡ true) ↔ (x ≡ y)

infix 50 ◌==◌
abbrev pub ◌==◌ {ℓ} : {T : Type ℓ} ⦃p : PartialEq T⦄ → T → T → Bool
◌==◌ ⦃p⦄ x y = p.same x y

module _ {ℓ} {A : Type ℓ} ⦃e : PartialEq A⦄ where
  pub beq_refl : (a : A) → (a == a) ≡ true
  beq_refl a = (e.same_iff a a).1 refl

  abbrev pub list_beq : List A → List A → Bool
  list_beq [] [] = true
  list_beq [] (y ∷ ys) = false
  list_beq (x ∷ xs) [] = false
  list_beq (x ∷ xs) (y ∷ ys) = (x == y) && list_beq xs ys

  pub list_beq_iff : (xs ys : List A) → (list_beq xs ys ≡ true) ↔ (xs ≡ ys)
  list_beq_iff [] [] = (λ _. refl, λ _. refl)
  list_beq_iff [] (y ∷ ys) = (λ h. cc, λ h. cc)
  list_beq_iff (x ∷ xs) [] = (λ h. cc, λ h. cc)
  list_beq_iff (x ∷ xs) (y ∷ ys) = ground (arith, e.same_iff x y, list_beq_iff xs ys)

instance abbrev pub list_eq {ℓ} : {A : Type ℓ} ⦃e : PartialEq A⦄ → PartialEq (List A)
list_eq = record { same = list_beq; same_iff = list_beq_iff }

instance abbrev pub nat_eq : PartialEq ℕ
nat_eq = record { same = nat_beq; same_iff = ==_iff }
