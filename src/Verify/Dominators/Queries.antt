-- ===== src/Verify/Dominators/Queries.antt =====
-- `compute` ends, and its tree answers what dominates a block.
use astronomy.Prelude.{
  ℕ, zero, suc, ◌<◌, ◌≡◌, ◌≢◌, ◌↔◌, refl, sym, ap, ◌∙◌, subst, List, [], ◌∷◌, length, some, arith,
  inl, inr, Bool, true, false, Bool-cases, ==_iff, ◌==◌,
}
use mathlib.Core.Option.{bind}
use astronomy.Prelude.Arrays.{at_or}
use astronomy.Ir.Functions.{BlockId}
use astronomy.Verify.Cfg.Dfs.{Walk}
use astronomy.Verify.Cfg.Dfs.Ends.{search_ends, marked_of_Walk, post-IsPostorder}
use astronomy.Verify.Dominators.{
  CfgInfo, number, parent, analyze_search, analyze, dominates_from, dominates,
}
use astronomy.Verify.Dominators.Walks.{steps, Dominates}
use astronomy.Verify.Dominators.Short.{same_or_not}
use astronomy.Verify.Dominators.Chains.{Above, here, up, Processed, Above-parent}
use astronomy.Verify.Dominators.Levels.{
  IsNumbered, IsLevel-IsTree, Dominates-Above, Above-Dominates,
}
use astronomy.Verify.Dominators.Settled.{IsExact}
use astronomy.Verify.Dominators.Exact.{nums-IsNumbered, settles}

-- What is known of the result of `compute`.
pub record IsAnalysis (succs : List (List BlockId)) (info : CfgInfo) : Type 0 where
  pub size : length info.reachable ≡ length succs
  pub reach : (v : BlockId) → (at_or false info.reachable v ≡ true) ↔ Walk succs v
  pub numbers : IsNumbered succs info.rpo_number
  pub exact : IsExact succs info.rpo_number info.idom

pub analyze_lem :
    (succs : List (List BlockId))
    → 0 < length succs
    → (info : CfgInfo) × (analyze succs ≡ some info) × IsAnalysis succs info
unfolding analyze analyze_search bind
analyze_lem [] body = absurd (omega arith)
analyze_lem (ss ∷ rest) body =
    let succs = ss ∷ rest in
    let (t, ran, h, empty) = search_ends succs body in
    let post = post-IsPostorder succs t h empty in
    let (tree, settled, exact) = settles succs body t.post post in
    (
      record { reachable = t.reachable; rpo_number = _; idom = tree },
      rw (ran, settled) refl,
      record {
        size = h.size;
        reach = λ v. (h.sound v, marked_of_Walk succs t h empty v);
        numbers = nums-IsNumbered succs body t.post post;
        exact = exact;
      },
    )

module _ (succs : List (List BlockId)) (body : 0 < length succs) (info : CfgInfo)
    (h : IsAnalysis succs info) where
  processed : (x : BlockId) → Walk succs x → Processed info.idom x
  processed x w = (h.exact (steps succs x w) 0).found x w (omega arith)

  above : (z x : BlockId) → Walk succs x → Dominates succs z x → Above info.idom z x
  above z x w d =
      Dominates-Above succs info.rpo_number h.numbers 0 0 info.idom (h.exact 0 0) z x
        (processed x w) d

  below : (z x : BlockId) → Above info.idom z x → Dominates succs z x
  below z x a =
      let n = length succs in
      Above-Dominates succs info.rpo_number h.numbers n 0 info.idom (h.exact n 0) body (omega arith)
        z x a

  parent_differs : (x p : BlockId) → x ≢ 0 → parent info.idom x ≡ some p → (p == x) ≡ false
  parent_differs x p other e =
      let (lt, _) = (h.exact 0 0).below x p other e in
      elim (Bool-cases (p == x)) [
        | inr differ ↦ differ
        | inl same ↦ absurd (omega (arith, lt, ap (number info.rpo_number) ((==_iff p x).0 same)))
      ]

  -- Nothing else stands above the entry block.
  Above-entry : (z x : BlockId) → x ≡ 0 → Above info.idom z x → z ≡ x
  Above-entry z x root here = refl
  Above-entry z x root (up other e a) = absurd (other root)

  dominates_from_lem :
      (fuel : ℕ) (a x : BlockId)
      → Walk succs x
      → number info.rpo_number x < fuel
      → (d : Bool) × (dominates_from fuel info.idom a x ≡ some d)
        × ((d ≡ true) ↔ Above info.idom a x)
  unfolding dominates_from
  dominates_from_lem zero a x w enough = absurd (omega arith)
  dominates_from_lem (suc fuel) a x w enough = elim (Bool-cases (x == a)) [
    | inl e ↦ (
      true,
      rw (e, dominates_from) refl,
      (λ _. subst (λ y. Above info.idom y x) ((==_iff x a).0 e) here, λ _. refl),
    )
    | inr e ↦
        let differ : a ≢ x = λ s. (let t = (==_iff x a).1 (sym s) in cc) in
        let (p, at) = processed x w in
        elim (same_or_not x 0) [
          | inl root ↦
              let loop : parent info.idom x ≡ some 0 =
                ap (parent info.idom) root ∙ (h.exact 0 0).root in
              let at_top : (0 == x) ≡ true = (==_iff 0 x).1 (sym root) in
              (
                false,
                rw (e, loop, at_top, dominates_from) refl,
                (λ t. absurd (let z = t in cc), λ m. absurd (differ (Above-entry a x root m))),
              )
          | inr other ↦
              let (lt, done) = (h.exact 0 0).below x p other at in
              let walk = (h.exact 0 0).reached p done in
              let (d, ran, iff) = dominates_from_lem fuel a p walk (omega (arith, lt, enough)) in
              (
                d,
                rw (e, at, parent_differs x p other at, dominates_from) ran,
                (
                  λ t. up other at (iff.0 t),
                  λ up_there. iff.1 (
                      Above-parent info.rpo_number info.idom
                        (IsLevel-IsTree succs info.rpo_number h.numbers 0 0 info.idom (h.exact 0 0))
                        a x p at up_there differ),
                ),
              )
        ]
  ]

  pub dominates_lem :
      (a b : BlockId)
      → Walk succs b
      → (d : Bool) × (dominates info a b ≡ some d) × ((d ≡ true) ↔ Dominates succs a b)
  unfolding dominates
  dominates_lem a b w =
      let (d, ran, iff) = dominates_from_lem (suc (number info.rpo_number b)) a b w (omega arith) in
      (d, ran, (λ t. below a b (iff.0 t), λ m. iff.1 (above a b w m)))

  -- The parent of a block but the entry is its immediate dominator.
  pub idom_lem :
      (b : BlockId)
      → Walk succs b
      → b ≢ 0
      → (p : BlockId) × (parent info.idom b ≡ some p)
        × (p ≢ b)
        × Dominates succs p b
        × ((z : BlockId) → Dominates succs z b → z ≢ b → Dominates succs z p)
  idom_lem b w other =
      let (p, e) = processed b w in
      let (lt, done) = (h.exact 0 0).below b p other e in
      (
        p,
        e,
        (λ s. omega (arith, lt, ap (number info.rpo_number) s)),
        below p b (up other e here),
        λ z d differ. (h.exact 0 0).kept b p z other e d differ,
      )

-- For a function with a body, `compute` ends, and `dominates` answers for every block that control reaches, with true exactly where every walk from the entry block to it passes the other block.
pub analyze-dominates :
    (succs : List (List BlockId))
    → 0 < length succs
    → (info : CfgInfo) × (analyze succs ≡ some info)
      × ((a b : BlockId)
          → Walk succs b
          → (d : Bool) × (dominates info a b ≡ some d) × ((d ≡ true) ↔ Dominates succs a b))
analyze-dominates succs body =
    let (info, ran, h) = analyze_lem succs body in (info, ran, dominates_lem succs body info h)

-- For a function with a body, `compute` ends, and gives each block that control reaches, but the entry block, its immediate dominator: another block that dominates it, and that everything else that dominates it dominates.
pub analyze-idom :
    (succs : List (List BlockId))
    → 0 < length succs
    → (info : CfgInfo) × (analyze succs ≡ some info)
      × ((b : BlockId)
          → Walk succs b
          → b ≢ 0
          → (p : BlockId) × (parent info.idom b ≡ some p)
            × (p ≢ b)
            × Dominates succs p b
            × ((z : BlockId) → Dominates succs z b → z ≢ b → Dominates succs z p))
analyze-idom succs body =
    let (info, ran, h) = analyze_lem succs body in (info, ran, idom_lem succs body info h)
