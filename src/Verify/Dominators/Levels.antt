-- ===== src/Verify/Dominators/Levels.antt =====
-- How good the tree is after `k` rounds: a parent is passed by every walk of at most `k` steps, and
-- nothing that dominates a block is skipped on the way up.
use astronomy.Prelude.{
  ℕ, zero, suc, ◌<◌, ◌≤◌, ◌≡◌, ◌≢◌, ◌⊎◌, sym, ap, ◌∙◌, subst, List, Option, some, length, arith,
  inl, inr,
}
use astronomy.Ir.Functions.{BlockId}
use astronomy.Verify.Cfg.Dfs.{Edge, Walk}
use astronomy.Verify.Dominators.{number, parent}
use astronomy.Verify.Dominators.Walks.{
  steps, Dominates, DominatesWithin, Passes-end, DominatesWithin-trans, Dominates-entry,
}
use astronomy.Verify.Dominators.Short.{same_or_not, DominatesWithin-Dominates}
use astronomy.Verify.Dominators.Chains.{Above, here, up, Processed, IsTree, Above-le}

-- The numbers of the blocks that control reaches: the entry is 0, every other block has a predecessor
-- of a smaller number.
pub record IsNumbered (succs : List (List BlockId)) (nums : List ℕ) : Type 0 where
  pub first : number nums 0 ≡ 0
  pub apart : (x y : BlockId) → Walk succs x → Walk succs y → number nums x ≡ number nums y → x ≡ y
  pub earlier :
      (x : BlockId)
      → Walk succs x
      → x ≢ 0
      → (u : BlockId) × Walk succs u × Edge succs u x × (number nums u < number nums x)

-- After `k` rounds, and the blocks of a number below `i` of the next.
pub record IsLevel (succs : List (List BlockId)) (nums : List ℕ) (k i : ℕ)
    (idom : List (Option BlockId)) : Type 0 where
  pub size : length idom ≡ length succs
  pub root : parent idom 0 ≡ some 0
  pub below :
      (x p : BlockId)
      → x ≢ 0
      → parent idom x ≡ some p
      → (number nums p < number nums x) × Processed idom p
  pub reached : (x : BlockId) → Processed idom x → Walk succs x
  pub found : (x : BlockId) (w : Walk succs x) → steps succs x w ≤ k → Processed idom x
  pub within : (x p : BlockId) → x ≢ 0 → parent idom x ≡ some p → DominatesWithin succs k p x
  pub kept :
      (x p z : BlockId)
      → x ≢ 0
      → parent idom x ≡ some p
      → Dominates succs z x
      → z ≢ x
      → Dominates succs z p
  pub ahead :
      (x : BlockId)
      → Walk succs x
      → number nums x < i
      → Processed idom x
        × ((p : BlockId) → x ≢ 0 → parent idom x ≡ some p → DominatesWithin succs (suc k) p x)

module _ (succs : List (List BlockId)) (nums : List ℕ) (g : IsNumbered succs nums) (k i : ℕ)
    (idom : List (Option BlockId)) (h : IsLevel succs nums k i idom) where
  pub IsLevel-IsTree : IsTree nums idom
  IsLevel-IsTree = record {
    first = g.first;
    root = h.root;
    below = h.below;
    apart = λ x y px py e. g.apart x y (h.reached x px) (h.reached y py) e;
  }

  -- Every short walk to a block passes the blocks above it.
  pub Above-DominatesWithin : (z x : BlockId) → Above idom z x → DominatesWithin succs k z x
  Above-DominatesWithin z x here = λ w short. Passes-end succs x w
  Above-DominatesWithin z x (up {p = p} other e a) =
      DominatesWithin-trans succs k z p x (h.within x p other e) (Above-DominatesWithin z p a)

  Dominates-Above_below :
      (n : ℕ) (z x : BlockId)
      → number nums x < n
      → Processed idom x
      → Dominates succs z x
      → Above idom z x
  Dominates-Above_below zero z x lt done d = absurd (omega arith)
  Dominates-Above_below (suc n) z x lt (p, e) d = elim (same_or_not z x) [
    | inl same ↦ subst (Above idom z) same here
    | inr differ ↦ elim (same_or_not x 0) [
      | inl root ↦
          absurd (differ (Dominates-entry succs z (subst (Dominates succs z) root d) ∙ sym root))
      | inr other ↦
          let (nearer, done) = h.below x p other e in
          up other e (
            Dominates-Above_below n z p (omega (arith, nearer, lt)) done
              (h.kept x p z other e d differ))
    ]
  ]

  -- What dominates a processed block stands above it.
  pub Dominates-Above : (z x : BlockId) → Processed idom x → Dominates succs z x → Above idom z x
  Dominates-Above z x = Dominates-Above_below (suc (number nums x)) z x (omega arith)

  -- On the way up from a block, what dominates it dominates each block up to itself.
  pub Dominates-upwards :
      (z c x : BlockId)
      → Above idom c x
      → Dominates succs z x
      → Dominates succs z c ⊎ (number nums c < number nums z)
  Dominates-upwards z c x here d = inl d
  Dominates-upwards z c x (up {p = p} other e a) d = elim (same_or_not z x) [
    | inl same ↦ inr (
        omega (
          arith,
          Above-le nums idom IsLevel-IsTree c p a,
          (h.below x p other e).0,
          ap (number nums) same,
        ))
    | inr differ ↦ Dominates-upwards z c p a (h.kept x p z other e d differ)
  ]

  module _ (body : 0 < length succs) (late : length succs ≤ k) where
    -- After as many rounds as there are blocks, above a block is what dominates it.
    pub Above-Dominates : (z x : BlockId) → Above idom z x → Dominates succs z x
    Above-Dominates z x a =
        DominatesWithin-Dominates succs z body x
          (λ w short. Above-DominatesWithin z x a w (omega (arith, short, late)))
