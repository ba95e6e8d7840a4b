-- ===== src/Verify/Dominators/Walks.antt =====
-- What it is to dominate: the blocks that every walk from the entry block passes.
use astronomy.Prelude.{ℕ, suc, ◌≤◌, ◌≡◌, ◌≢◌, ◌⊎◌, refl, sym, List, arith, inl, inr, subst}
use mathlib.Core.Logic.{⊎_elim}
use astronomy.Ir.Functions.{BlockId}
use astronomy.Verify.Cfg.Dfs.{Edge, Walk, entry, along}

module _ (succs : List (List BlockId)) where
  abbrev pub steps : (v : BlockId) → Walk succs v → ℕ
  steps v entry = 0
  steps v (along {u = u} w e) = suc (steps u w)

  abbrev pub Passes : BlockId → (v : BlockId) → Walk succs v → Type 0
  Passes z v entry = z ≡ 0
  Passes z v (along {u = u} w e) = (z ≡ v) ⊎ Passes z u w

  -- Every walk to `v` passes `z`.
  abbrev pub Dominates : BlockId → BlockId → Type 0
  Dominates z v = (w : Walk succs v) → Passes z v w

  -- Every walk to `v` of at most `k` steps passes `z`.
  abbrev pub DominatesWithin : ℕ → BlockId → BlockId → Type 0
  DominatesWithin k z v = (w : Walk succs v) → steps v w ≤ k → Passes z v w

  pub Passes-end : (v : BlockId) (w : Walk succs v) → Passes v v w
  Passes-end v entry = refl
  Passes-end v (along w e) = inl refl

  -- The part of a walk that ends at a block that it passes.
  pub Passes-prefix :
      (z v : BlockId) (w : Walk succs v)
      → Passes z v w
      → (w' : Walk succs z) × (steps z w' ≤ steps v w)
        × ((y : BlockId) → Passes y z w' → Passes y v w)
  Passes-prefix z v entry p =
      subst (λ x. (w' : Walk succs x) × (steps x w' ≤ 0) × ((y : BlockId) → Passes y x w' → y ≡ 0))
        (sym p) (entry, omega arith, λ y h. h)
  Passes-prefix z v (along {u = u} w e) (inl p) =
      subst
        (λ x.
          (w' : Walk succs x) × (steps x w' ≤ suc (steps u w))
          × ((y : BlockId) → Passes y x w' → (y ≡ v) ⊎ Passes y u w))
        (sym p) (along w e, omega arith, λ y h. h)
  Passes-prefix z v (along {u = u} w e) (inr p) =
      let (w', short, all) = Passes-prefix z u w p in
      (w', omega (arith, short), λ y h. inr (all y h))

  pub DominatesWithin-trans :
      (k : ℕ) (z p x : BlockId)
      → DominatesWithin k p x
      → DominatesWithin k z p
      → DominatesWithin k z x
  DominatesWithin-trans k z p x above further w short =
      let (w', shorter, all) = Passes-prefix p x w (above w short) in
      all z (further w' (omega (arith, shorter, short)))

  -- What dominates a block, and is not the block, dominates its predecessors.
  pub Dominates-before : (z u v : BlockId) → Edge succs u v → z ≢ v → Dominates z v → Dominates z u
  Dominates-before z u v e other d w = ⊎_elim (λ same. absurd (other same)) (λ p. p) (d (along w e))

  -- What dominates every predecessor that control reaches dominates the block.
  pub DominatesWithin-after :
      (k : ℕ) (z v : BlockId)
      → v ≢ 0
      → ((u : BlockId) (w : Walk succs u) → Edge succs u v → steps u w ≤ k → Passes z u w)
      → DominatesWithin (suc k) z v
  DominatesWithin-after k z v other before entry short = absurd (other refl)
  DominatesWithin-after k z v other before (along {u = u} w e) short =
      inr (before u w e (omega (arith, short)))

  pub Dominates-after :
      (z v : BlockId)
      → v ≢ 0
      → ((u : BlockId) → Walk succs u → Edge succs u v → Dominates z u)
      → Dominates z v
  Dominates-after z v other before entry = absurd (other refl)
  Dominates-after z v other before (along {u = u} w e) = inr (before u w e w)

  pub Dominates-entry : (z : BlockId) → Dominates z 0 → z ≡ 0
  Dominates-entry z d = d entry
