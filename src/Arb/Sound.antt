-- ===== src/Arb/Sound.antt =====
-- What holds of the values that a reader returns, whatever bytes it is given.
pub mod Types
pub mod Stores
pub mod Files
use astronomy.Prelude.{
  List, ℕ, ◌≡◌, refl, ap, subst, Bool, true, false, some, if◌then◌else◌, Bool-cases, inl, inr,
}
use astronomy.Arb.Errors.{ArbError, Result, ok, err}
use astronomy.Arb.Cursor.{Cursor, Reader, pure, fail, ◌>>=◌, and_then, section, finish}
use astronomy.Arb.Decode.{in_section, finish_section}

abbrev pub Holds {ℓ} : {A : Type ℓ} → (A → Type 0) → Result (A × Cursor) → Type 0
Holds P (ok (a, c)) = P a
Holds P (err e) = Unit {0}

pub record Ensures {ℓ} {A : Type ℓ} (P : A → Type 0) (r : Reader A) : Type ℓ where
  pub on : (c : Cursor) → Holds P (r c)

module _ {ℓ} {A : Type ℓ} {P : A → Type 0} where
  pub Ensures-pure : (a : A) → P a → Ensures P (pure a)
  unfolding pure
  Ensures-pure a h = record { on = λ c. h }

  pub Ensures-fail : (e : ArbError) → Ensures P (fail e)
  unfolding fail
  Ensures-fail e = record { on = λ c. tt }

  pub Ensures-if :
      (b : Bool) {r s : Reader A}
      → (b ≡ true → Ensures P r)
      → (b ≡ false → Ensures P s)
      → Ensures P (if b then r else s)
  Ensures-if true p q = p refl
  Ensures-if false p q = q refl

  pub Ensures-get : {r : Reader A} {c c' : Cursor} {a : A} → Ensures P r → r c ≡ ok (a, c') → P a
  Ensures-get {c} p e = subst (Holds P) e (p.on c)

  pub Ensures-weaken :
      (Q : A → Type 0) {r : Reader A} → Ensures P r → ((a : A) → P a → Q a) → Ensures Q r
  Ensures-weaken Q {r} p imp = record { on = λ c. weaken (r c) (p.on c) }
    where
      weaken : (t : Result (A × Cursor)) → Holds P t → Holds Q t
      weaken (ok (a, c)) h = imp a h
      weaken (err e) h = tt

module _ {ℓ κ} {A : Type ℓ} {B : Type κ} where
  pub Ensures-bind :
      {P : B → Type 0} (Q : A → Type 0) {r : Reader A} {f : A → Reader B}
      → Ensures Q r
      → ((a : A) → Q a → Ensures P (f a))
      → Ensures P (r >>= f)
  unfolding ◌>>=◌
  Ensures-bind {P} Q {r} {f} p q = record { on = λ c. and_then_holds (r c) (p.on c) }
    where
      and_then_holds : (t : Result (A × Cursor)) → Holds Q t → Holds P (and_then t f)
      and_then_holds (ok (a, c)) h = (q a h).on c
      and_then_holds (err e) h = tt

  -- A value of which nothing is known.
  pub Ensures-any :
      {P : B → Type 0} (r : Reader A) {f : A → Reader B}
      → ((a : A) → Ensures P (f a))
      → Ensures P (r >>= f)
  unfolding ◌>>=◌
  Ensures-any {P} r {f} q = record { on = λ c. holds_after (r c) }
    where
      holds_after : (t : Result (A × Cursor)) → Holds P (and_then t f)
      holds_after (ok (a, c)) = (q a).on c
      holds_after (err e) = tt

-- What a section's reader ensures of its value.
pub Ensures-in_section :
    {A : Type 0} {P : A → Type 0} (tag : List ℕ) {r : Reader A}
    → Ensures P r
    → Ensures P (in_section tag r)
unfolding in_section ◌>>=◌
Ensures-in_section {A} {P} tag {r} p = record { on = λ c. opened (section tag c) }
  where
    finished :
        (file : Cursor) (t : Result (A × Cursor)) → Holds P t → Holds P (finish_section file t)
    finished file (err e) h = tt
    finished file (ok (a, s)) h =
        elim (finish s)
          as (λ x.
            Holds P
              (elim x as (λ _. Result (A × Cursor)) [ ok _ ↦ ok (a, file) | err e ↦ err e ])) [
                | ok _ ↦ h
                | err e ↦ tt
              ]

    opened :
        (t : Result (Cursor × Cursor)) → Holds P (and_then t (λ s file. finish_section file (r s)))
    opened (err e) = tt
    opened (ok (s, file)) = finished file (r s) (p.on s)
