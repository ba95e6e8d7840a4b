-- ===== src/Verify/Dominators/Settled.antt =====
-- The rounds end: once a tree is exact, a round leaves it as it is; and a tree that a round leaves as
-- it is is exact.
use astronomy.Prelude.{
  ℕ, zero, suc, ◌+◌, ◌<◌, ◌≤◌, ◌≡◌, ◌≢◌, refl, sym, ap, ◌∙◌, subst, List, [], ◌∷◌, Option, none,
  some, length, arith, inl, inr, Bool, true, false, Bool-cases, ==_iff, if◌then◌else◌,
}
use mathlib.Core.Option.{bind, some-injective}
use astronomy.Prelude.Arrays.{at_or, write}
use astronomy.Ir.Functions.{BlockId}
use astronomy.Verify.Cfg.Dfs.{Walk}
use astronomy.Verify.Dominators.{number, parent, is_block, assign, update, pass, settle, Dominating}
use astronomy.Verify.Dominators.Walks.{steps, Dominates, Dominates-before, Dominates-after}
use astronomy.Verify.Dominators.Short.{same_or_not, short_walk, DominatesWithin-Dominates}
use astronomy.Verify.Dominators.Chains.{Above, Processed, Above-le, Above-parent}
use astronomy.Verify.Dominators.Meets.{IsMerged}
use astronomy.Verify.Dominators.Levels.{
  IsNumbered, IsLevel, IsLevel-IsTree, Dominates-Above, Above-Dominates,
}
use astronomy.Verify.Dominators.Rounds.{IsPredecessors, IsTail, update_lem, pass_lem}

-- At every level: the parents are the immediate dominators.
abbrev pub IsExact : List (List BlockId) → List ℕ → List (Option BlockId) → Type 0
IsExact succs nums idom = (k i : ℕ) → IsLevel succs nums k i idom

module _ (succs : List (List BlockId)) (nums : List ℕ) (body : 0 < length succs) where
  -- As many rounds as there are blocks suffice.
  pub IsLevel-IsExact :
      (k j : ℕ) (idom : List (Option BlockId))
      → length succs ≤ k
      → IsLevel succs nums k j idom
      → IsExact succs nums idom
  IsLevel-IsExact k j idom late h k' i =
      let all : (x : BlockId) → Walk succs x → Processed idom x = λ x w.
        let (w', short) = short_walk succs body x w in h.found x w' (omega (arith, short, late)) in
      let exact : (x p : BlockId) → x ≢ 0 → parent idom x ≡ some p → Dominates succs p x =
        λ x p ne e.
          DominatesWithin-Dominates succs p body x
            (λ w short. h.within x p ne e w (omega (arith, short, late))) in
      record {
        size = h.size;
        root = h.root;
        below = h.below;
        reached = h.reached;
        found = λ x w short. all x w;
        within = λ x p ne e w short. exact x p ne e w;
        kept = h.kept;
        ahead = λ x w lt. (all x w, λ p ne e v short. exact x p ne e v);
      }

module _ (succs preds : List (List BlockId)) (nums : List ℕ) (g : IsNumbered succs nums)
    (p : IsPredecessors succs preds) (body : 0 < length succs) where
  module _ (idom : List (Option BlockId)) (exact : IsExact succs nums idom) (b nd q : BlockId)
      (walk : Walk succs b) (other : b ≢ 0) (e : parent idom b ≡ some q)
      (m : IsMerged idom (at_or [] preds b) none (some nd)) where
    -- In an exact tree the predecessors are merged to the parent that the block has.
    merged_same : nd ≡ q
    merged_same =
        let (done, _, all, lowest) = m in
        let n = length succs in
        let h = exact n 0 in
        let tree = IsLevel-IsTree succs nums g n 0 idom h in
        let (u, wu, edge, lt) = g.earlier b walk other in
        let processed : (x : BlockId) → Walk succs x → Processed idom x =
          λ x w. (exact (steps succs x w) 0).found x w (omega arith) in
        let dominates = Above-Dominates succs nums g n 0 idom h body (omega arith) in
        let above = Dominates-Above succs nums g n 0 idom h in
        let nd_less : number nums nd < number nums b = omega (
          arith,
          lt,
          Above-le nums idom tree nd u (all u ((p u b).1 (wu, edge)) (processed u wu)),
        ) in
        let (q_less, q_done) = h.below b q other e in
        let nd_above : Above idom nd b =
          above nd b (q, e)
            (Dominates-after succs nd b other
              (λ x w ex. dominates nd x (all x ((p x b).1 (w, ex)) (processed x w)))) in
        let nd_q : Above idom nd q =
          Above-parent nums idom tree nd b q e nd_above
            (λ s. omega (arith, nd_less, ap (number nums) s)) in
        let q_dominates : Dominates succs q b =
          DominatesWithin-Dominates succs q body b (h.within b q other e) in
        let q_nd : Above idom q nd = lowest q tt (λ x mx dx. above q x dx (
          Dominates-before succs q x b ((p x b).0 mx).1
            (λ s. omega (arith, q_less, ap (number nums) s)) q_dominates)) in
        tree.apart nd q done q_done
          (omega (arith, Above-le nums idom tree nd q nd_q, Above-le nums idom tree q nd q_nd))

  update_same :
      (b : BlockId) (s : Dominating)
      → IsExact succs nums s.idom
      → Walk succs b
      → b ≢ 0
      → update preds nums b s ≡ some s
  update_same b s exact walk other =
      let (nd, ran, m, _) =
        update_lem succs preds nums g p body 0 b s walk other (exact 0 (number nums b)) in
      let (q, e) = (exact (steps succs b walk) 0).found b walk (omega arith) in
      let same : is_block (parent s.idom b) nd ≡ true =
        ap (λ o. is_block o nd) e
        ∙ (==_iff q nd).1 (sym (merged_same s.idom exact b nd q walk other e m)) in
      ran ∙ rw same refl

  pass_same :
      (rest : List BlockId) (i : ℕ) (s : Dominating)
      → IsExact succs nums s.idom
      → IsTail succs nums i rest
      → pass preds nums rest s ≡ some s
  unfolding pass bind
  pass_same [] i s exact tail = refl
  pass_same (b ∷ rest) i s exact (at, walk, other, tail) =
      rw (update_same b s exact walk other, pass, bind) (pass_same rest (suc i) s exact tail)

  quiet_if :
      (b : Bool) (s t : Dominating)
      → t.changed ≡ true
      → (if b then s else t).changed ≡ false
      → (if b then s else t) ≡ s
  quiet_if true s t loud quiet = refl
  quiet_if false s t loud quiet = cc

  -- A round that reports no change has made none.
  pass_unchanged :
      (k : ℕ) (rest : List BlockId) (i : ℕ) (s t : Dominating)
      → IsTail succs nums i rest
      → IsLevel succs nums k i s.idom
      → pass preds nums rest s ≡ some t
      → t.changed ≡ false
      → (s.changed ≡ false) × (t.idom ≡ s.idom)
  unfolding pass bind
  pass_unchanged k [] i s t tail h ran quiet =
      let e = some-injective _ _ ran in
      (ap (λ (x : Dominating). x.changed) e ∙ quiet, ap (λ (x : Dominating). x.idom) (sym e))
  pass_unchanged k (b ∷ rest) i s t (at, walk, other, tail) h ran quiet =
      let (nd, up, m, level) =
        update_lem succs preds nums g p body k b s walk other
          (subst (λ j. IsLevel succs nums k j s.idom) (sym at) h) in
      let (calm, same) =
        pass_unchanged k rest (suc i) (assign b (some nd) s) t tail
          (subst (λ j. IsLevel succs nums k (suc j) (assign b (some nd) s).idom) at level)
          (ap (λ o. bind o (pass preds nums rest)) (sym up) ∙ ran) quiet in
      let kept : assign b (some nd) s ≡ s =
        quiet_if (is_block (parent s.idom b) nd) s
          (record { idom = write b (some nd) s.idom; changed = true }) refl calm in
      (
        ap (λ (x : Dominating). x.changed) (sym kept) ∙ calm,
        same ∙ ap (λ (x : Dominating). x.idom) kept,
      )

  -- Where a round makes no change, no number of rounds does.
  unchanged-IsLevel :
      (rest : List BlockId) (s t : Dominating)
      → IsTail succs nums 1 rest
      → pass preds nums rest s ≡ some t
      → t.idom ≡ s.idom
      → (m k : ℕ) → IsLevel succs nums k 1 s.idom
      → IsLevel succs nums (m + k) 1 s.idom
  unchanged-IsLevel rest s t tail ran same zero k h =
      subst (λ j. IsLevel succs nums j 1 s.idom) (let q : k ≡ 0 + k = omega arith in q) h
  unchanged-IsLevel rest s t tail ran same (suc m) k h =
      let (t', ran', further) = pass_lem succs preds nums g p body k rest 1 s tail h in
      let e : t'.idom ≡ s.idom =
        ap (λ (x : Dominating). x.idom) (some-injective _ _ (sym ran' ∙ ran)) ∙ same in
      subst (λ j. IsLevel succs nums j 1 s.idom) (let q : m + suc k ≡ suc m + k = omega arith in q)
        (unchanged-IsLevel rest s t tail ran same m (suc k)
          (subst (IsLevel succs nums (suc k) 1) e further))

  -- The rounds end within one for each block and one that changes nothing, with an exact tree.
  pub settle_lem :
      (fuel k : ℕ) (rest : List BlockId) (idom : List (Option BlockId))
      → IsTail succs nums 1 rest
      → IsLevel succs nums k 1 idom
      → k ≤ length succs
      → length succs < k + fuel
      → (tree : List (Option BlockId)) × (settle fuel preds nums rest idom ≡ some tree)
        × IsExact succs nums tree
  unfolding settle bind
  settle_lem zero k rest idom tail h few enough = absurd (omega (arith, few, enough))
  settle_lem (suc fuel) k rest idom tail h few enough =
      let s : Dominating = record { idom = idom; changed = false } in
      let n = length succs in
      let (t, ran, further) = pass_lem succs preds nums g p body k rest 1 s tail h in
      elim (Bool-cases t.changed) [
        | inr quiet ↦
            let (_, same) = pass_unchanged k rest 1 s t tail h ran quiet in
            let exact =
              IsLevel-IsExact succs nums body (n + k) 1 idom (omega arith)
                (unchanged-IsLevel rest s t tail ran same n k h) in
            (
              t.idom,
              rw (ran, settle, bind, quiet) refl,
              subst (IsExact succs nums) (sym same) exact,
            )
        | inl changed ↦ elim (same_or_not k n) [
          | inl last ↦
              let exact = IsLevel-IsExact succs nums body k 1 idom (omega (arith, last)) h in
              let e = some-injective _ _ (sym ran ∙ pass_same rest 1 s exact tail) in
              let no : t.changed ≡ false = ap (λ (x : Dominating). x.changed) e in
              absurd (let z = sym changed ∙ no in cc)
          | inr before ↦
              let (tree, ended, exact) =
                settle_lem fuel (suc k) rest t.idom tail further (omega (arith, few, before))
                  (omega (arith, enough)) in
              (tree, rw (ran, settle, bind, changed) ended, exact)
        ]
      ]
