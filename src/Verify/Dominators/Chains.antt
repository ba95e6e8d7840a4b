-- ===== src/Verify/Dominators/Chains.antt =====
-- The tree of immediate dominators while it is computed: the blocks above a block, and `intersect`,
-- which finds the lowest block above two.
use astronomy.Prelude.{
  ℕ, zero, suc, ◌+◌, ◌<◌, ◌≤◌, ◌≡◌, ◌≢◌, refl, sym, ap, ◌∙◌, subst, List, Option, some, arith,
  Bool-cases, ltb, ltb→lt, ==_iff, ◌==◌, inl, inr,
}
use mathlib.Core.Option.{bind, some-injective}
use astronomy.Ir.Functions.{BlockId}
use astronomy.Verify.Dominators.{number, parent, climb, intersect_from, intersect}

-- `z` is `x` or stands above it.
pub data Above (idom : List (Option BlockId)) (z : BlockId) : BlockId → Type 0 where
  here : Above idom z z
  up : {x p : BlockId} → x ≢ 0 → parent idom x ≡ some p → Above idom z p → Above idom z x

abbrev pub Processed : List (Option BlockId) → BlockId → Type 0
Processed idom x = (p : BlockId) × (parent idom x ≡ some p)

-- The entry block is on top, every other block is below its parent, which was processed, and the
-- numbers tell processed blocks apart.
pub record IsTree (nums : List ℕ) (idom : List (Option BlockId)) : Type 0 where
  pub first : number nums 0 ≡ 0
  pub root : parent idom 0 ≡ some 0
  pub below :
      (x p : BlockId)
      → x ≢ 0
      → parent idom x ≡ some p
      → (number nums p < number nums x) × Processed idom p
  pub apart :
      (x y : BlockId) → Processed idom x → Processed idom y → number nums x ≡ number nums y → x ≡ y

module _ (nums : List ℕ) (idom : List (Option BlockId)) (h : IsTree nums idom) where
  pub Above-le : (z x : BlockId) → Above idom z x → number nums z ≤ number nums x
  Above-le z x here = omega arith
  Above-le z x (up {p = p} other e a) = omega (arith, (h.below x p other e).0, Above-le z p a)

  pub Above-Processed : (z x : BlockId) → Above idom z x → Processed idom x → Processed idom z
  Above-Processed z x here done = done
  Above-Processed z x (up {p = p} other e a) done = Above-Processed z p a (h.below x p other e).1

  pub Above-trans : (y z x : BlockId) → Above idom y z → Above idom z x → Above idom y x
  Above-trans y z x a here = a
  Above-trans y z x a (up {p = p} other e b) = up other e (Above-trans y z p a b)

  -- Above a block is the block, or what is above its parent.
  pub Above-parent :
      (z x p : BlockId) → parent idom x ≡ some p → Above idom z x → z ≢ x → Above idom z p
  Above-parent z x p e here other = absurd (other refl)
  Above-parent z x p e (up {p = q} ne e' a) other =
      subst (Above idom z) (some-injective _ _ (sym e' ∙ e)) a

  -- A walk upwards stops at the first block whose number is at most the floor.
  pub climb_lem :
      (fuel floor : ℕ) (a : BlockId)
      → Processed idom a
      → number nums a < fuel
      → (c : BlockId) × (climb fuel nums idom floor a ≡ some c)
        × Above idom c a
        × (number nums c ≤ floor)
        × ((z : BlockId) → Above idom z a → number nums z ≤ floor → Above idom z c)
        × (floor < number nums a → number nums c < number nums a)
  unfolding climb
  climb_lem zero floor a done enough = absurd (omega arith)
  climb_lem (suc fuel) floor a (p, e) enough = elim (Bool-cases (ltb floor (number nums a))) [
    | inr low ↦ (
      a,
      rw (low, climb) refl,
      here,
      ground (arith, low),
      λ z up low. up,
      λ high. absurd (ground (arith, low)),
    )
    | inl high ↦
        let lt = ltb→lt floor (number nums a) high in
        let other : a ≢ 0 = λ s. omega (arith, lt, ap (number nums) s, h.first) in
        let (nearer, done) = h.below a p other e in
        let (c, ran, above, low, all, _) =
          climb_lem fuel floor p done (omega (arith, nearer, enough)) in
        (
          c,
          simp (high, e, climb) ran,
          up other e above,
          low,
          λ z az lz.
              all z (Above-parent z a p e az (λ s. omega (arith, lt, lz, ap (number nums) s))) lz,
          λ _. omega (arith, nearer, Above-le c p above),
        )
  ]

  -- The lowest block above both, within a round for each step that the walks can take.
  pub intersect_from_lem :
      (fuel : ℕ) (a b : BlockId)
      → Processed idom a
      → Processed idom b
      → number nums a + number nums b < fuel
      → (c : BlockId) × (intersect_from fuel nums idom a b ≡ some c)
        × Above idom c a
        × Above idom c b
        × ((z : BlockId) → Above idom z a → Above idom z b → Above idom z c)
  unfolding intersect_from bind
  intersect_from_lem zero a b pa pb enough = absurd (omega arith)
  intersect_from_lem (suc fuel) a b pa pb enough = elim (Bool-cases (a == b)) [
    | inl e ↦
        let same = (==_iff a b).0 e in
        (a, rw (e, intersect_from) refl, here, subst (Above idom a) same here, λ z za zb. za)
    | inr e ↦
        let differ : number nums a ≢ number nums b =
          λ s. (let t = (==_iff a b).1 (h.apart a b pa pb s) in cc) in
        let (a', ran_a, up_a, low_a, all_a, less_a) =
          climb_lem (suc (number nums a)) (number nums b) a pa (omega arith) in
        let (b', ran_b, up_b, low_b, all_b, less_b) =
          climb_lem (suc (number nums b)) (number nums a') b pb (omega arith) in
        let le_a = Above-le a' a up_a in
        let le_b = Above-le b' b up_b in
        let progress : number nums a' + number nums b' < fuel =
          omega (arith, differ, le_a, le_b, low_a, low_b, less_a, less_b, enough) in
        let (c, ran, ca, cb, lowest) =
          intersect_from_lem fuel a' b' (Above-Processed a' a up_a pa)
            (Above-Processed b' b up_b pb) progress in
        (
          c,
          simp (e, ran_a, ran_b, intersect_from, bind) ran,
          Above-trans c a' a ca up_a,
          Above-trans c b' b cb up_b,
          λ z za zb.
              let za' = all_a z za (Above-le z b zb) in
              lowest z za' (all_b z zb (Above-le z a' za')),
        )
  ]

  pub intersect_lem :
      (a b : BlockId)
      → Processed idom a
      → Processed idom b
      → (c : BlockId) × (intersect nums idom a b ≡ some c)
        × Above idom c a
        × Above idom c b
        × ((z : BlockId) → Above idom z a → Above idom z b → Above idom z c)
  unfolding intersect
  intersect_lem a b pa pb =
      intersect_from_lem (suc (number nums a + number nums b)) a b pa pb (omega arith)
