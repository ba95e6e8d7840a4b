-- ===== src/Verify/Dominators/Rounds.antt =====
-- A round over the blocks: each update of a block takes its part of the tree one level further.
use astronomy.Prelude.{
  ℕ, suc, ◌<◌, ◌≡◌, ◌≢◌, ◌↔◌, refl, sym, ap, ◌∙◌, subst, List, [], ◌∷◌, Option, none, some, length,
  arith, inl, inr, true, Bool-cases, ==_iff,
}
use mathlib.Core.Logic.{⊎_elim}
use mathlib.Core.List.{Memᴰ}
use mathlib.Core.Option.{bind, some-injective}
use astronomy.Prelude.Arrays.{at_or, write, length-write, at_or-write_same, at_or-write_other}
use astronomy.Ir.Functions.{BlockId}
use astronomy.Verify.Cfg.Dfs.{Edge, Walk, entry}
use astronomy.Verify.Dominators.{number, parent, is_block, assign, update, pass, Dominating}
use astronomy.Verify.Dominators.Walks.{
  Dominates, DominatesWithin, Dominates-before, DominatesWithin-after,
}
use astronomy.Verify.Dominators.Short.{same_or_not, in_range}
use astronomy.Verify.Dominators.Chains.{Processed, Above-le}
use astronomy.Verify.Dominators.Meets.{AboveAll, IsMerged, merge_preds_lem}
use astronomy.Verify.Dominators.Levels.{
  IsNumbered, IsLevel, IsLevel-IsTree, Above-DominatesWithin, Dominates-Above, Dominates-upwards,
}

abbrev pub IsPredecessors : List (List BlockId) → List (List BlockId) → Type 0
IsPredecessors succs preds =
    (q b : BlockId) → Memᴰ q (at_or [] preds b) ↔ (Walk succs q × Edge succs q b)

module _ (succs : List (List BlockId)) (nums : List ℕ) (g : IsNumbered succs nums) (k : ℕ)
    (idom : List (Option BlockId)) where
  -- The new parent `nd` of the block of number `i`.
  pub record IsParent (b nd : BlockId) : Type 0 where
    pub done : Processed idom nd
    pub less : number nums nd < number nums b
    pub within : DominatesWithin succs (suc k) nd b
    pub kept : (z : BlockId) → Dominates succs z b → z ≢ b → Dominates succs z nd

  pub assigned-IsLevel :
      (b nd : BlockId) (idom' : List (Option BlockId))
      → IsLevel succs nums k (number nums b) idom
      → Walk succs b
      → b ≢ 0
      → IsParent b nd
      → length idom' ≡ length idom
      → parent idom' b ≡ some nd
      → ((y : BlockId) → y ≢ b → parent idom' y ≡ parent idom y)
      → IsLevel succs nums k (suc (number nums b)) idom'
  assigned-IsLevel b nd idom' h walk other new size here there =
      let still : (x : BlockId) → Processed idom x → Processed idom' x = λ x (p, e).
        elim (same_or_not x b) [
          | inl s ↦ (nd, ap (parent idom') s ∙ here)
          | inr d ↦ (p, there x d ∙ e)
        ] in
      let at_b : (x p : BlockId) → x ≡ b → parent idom' x ≡ some p → nd ≡ p =
        λ x p s e. some-injective _ _ (sym here ∙ ap (parent idom') (sym s) ∙ e) in
      record {
        size = size ∙ h.size;
        root = there 0 (λ s. other (sym s)) ∙ h.root;
        below = λ x p ne e. elim (same_or_not x b) [
          | inl s ↦
              subst (λ y. (number nums y < number nums x) × Processed idom' y) (at_b x p s e)
                (omega (arith, new.less, ap (number nums) s), still nd new.done)
          | inr d ↦ let (lt, done) = h.below x p ne (sym (there x d) ∙ e) in (lt, still p done)
        ];
        reached = λ x (p, e). elim (same_or_not x b) [
          | inl s ↦ subst (Walk succs) (sym s) walk
          | inr d ↦ h.reached x (p, sym (there x d) ∙ e)
        ];
        found = λ x w short. still x (h.found x w short);
        within = λ x p ne e. elim (same_or_not x b) [
          | inl s ↦
              let inside : DominatesWithin succs k nd b =
                λ w short. new.within w (omega (arith, short)) in
              subst (λ y. DominatesWithin succs k y x) (at_b x p s e)
                (subst (DominatesWithin succs k nd) (sym s) inside)
          | inr d ↦ h.within x p ne (sym (there x d) ∙ e)
        ];
        kept = λ x p z ne e. elim (same_or_not x b) [
          | inl s ↦ λ d differ.
              subst (Dominates succs z) (at_b x p s e)
                (new.kept z (subst (Dominates succs z) s d) (λ t. differ (t ∙ sym s)))
          | inr d ↦ h.kept x p z ne (sym (there x d) ∙ e)
        ];
        ahead = λ x w lt. elim (same_or_not x b) [
          | inl s ↦ (
            (nd, ap (parent idom') s ∙ here),
            λ p ne e.
                subst (λ y. DominatesWithin succs (suc k) y x) (at_b x p s e)
                  (subst (DominatesWithin succs (suc k) nd) (sym s) new.within),
          )
          | inr d ↦
              let before : number nums x < number nums b =
                elim (same_or_not (number nums x) (number nums b)) [
                  | inl e ↦ absurd (d (g.apart x b w walk e))
                  | inr e ↦ omega (arith, lt, e)
                ] in
              let (done, all) = h.ahead x w before in
              (still x done, λ p ne e. all p ne (sym (there x d) ∙ e))
        ];
      }

module _ (succs preds : List (List BlockId)) (nums : List ℕ) (g : IsNumbered succs nums)
    (p : IsPredecessors succs preds) (k : ℕ) (idom : List (Option BlockId)) (b : BlockId)
    (walk : Walk succs b) (other : b ≢ 0) (h : IsLevel succs nums k (number nums b) idom) where
  -- What the predecessors are merged to is the block's parent.
  pub merged-IsParent :
      (r : Option BlockId)
      → IsMerged idom (at_or [] preds b) none r
      → (nd : BlockId) × (r ≡ some nd) × IsParent succs nums g k idom b nd
  merged-IsParent none (e, fresh) =
      let (u, wu, edge, lt) = g.earlier b walk other in
      absurd (fresh u ((p u b).1 (wu, edge)) (h.ahead u wu lt).0)
  merged-IsParent (some nd) (done, _, all, lowest) =
      let (u, wu, edge, lt) = g.earlier b walk other in
      let tree = IsLevel-IsTree succs nums g k (number nums b) idom h in
      let above_u = all u ((p u b).1 (wu, edge)) (h.ahead u wu lt).0 in
      (
        nd,
        refl,
        record {
          done = done;
          less = omega (arith, lt, Above-le nums idom tree nd u above_u);
          within = DominatesWithin-after succs k nd b other (λ q w e short.
              Above-DominatesWithin succs nums g k (number nums b) idom h nd q
                (all q ((p q b).1 (w, e)) (h.found q w short)) w short);
          kept = λ z d differ.
              let az : AboveAll idom z (at_or [] preds b) = λ q m q_done.
                Dominates-Above succs nums g k (number nums b) idom h z q q_done
                  (Dominates-before succs z q b ((p q b).0 m).1 differ d) in
              let low = Above-le nums idom tree z nd (lowest z tt az) in
              ⊎_elim (λ y. y) (λ y. absurd (omega (arith, low, y)))
                (Dominates-upwards succs nums g k (number nums b) idom h z nd u above_u
                  (Dominates-before succs z u b edge differ d));
        },
      )

is_block_lem : (o : Option BlockId) (b : BlockId) → is_block o b ≡ true → o ≡ some b
is_block_lem none b e = cc
is_block_lem (some p) b e = ap some ((==_iff p b).0 e)

module _ (succs : List (List BlockId)) (nums : List ℕ) where
  -- The blocks of the numbers from `i` on, in the order of their numbers.
  abbrev pub IsTail : ℕ → List BlockId → Type 0
  IsTail i [] = (x : BlockId) → Walk succs x → number nums x < i
  IsTail i (b ∷ rest) = (number nums b ≡ i) × Walk succs b × (b ≢ 0) × IsTail (suc i) rest

module _ (succs preds : List (List BlockId)) (nums : List ℕ) (g : IsNumbered succs nums)
    (p : IsPredecessors succs preds) (body : 0 < length succs) (k : ℕ) where
  -- The update of a block.
  pub update_lem :
      (b : BlockId) (s : Dominating)
      → Walk succs b
      → b ≢ 0
      → IsLevel succs nums k (number nums b) s.idom
      → (nd : BlockId) × (update preds nums b s ≡ some (assign b (some nd) s))
        × IsMerged s.idom (at_or [] preds b) none (some nd)
        × IsLevel succs nums k (suc (number nums b)) (assign b (some nd) s).idom
  unfolding update bind
  update_lem b s walk other h =
      let tree = IsLevel-IsTree succs nums g k (number nums b) s.idom h in
      let (r, ran, m) = merge_preds_lem nums s.idom tree (at_or [] preds b) none tt in
      let (nd, e, new) = merged-IsParent succs preds nums g p k s.idom b walk other h r m in
      (
        nd,
        rw (ran, e) refl,
        subst (IsMerged s.idom (at_or [] preds b) none) e m,
        elim (Bool-cases (is_block (parent s.idom b) nd)) [
          | inl same ↦ rw same (
              assigned-IsLevel succs nums g k s.idom b nd s.idom h walk other new refl
                (is_block_lem (parent s.idom b) nd same) (λ y d. refl))
          | inr differ ↦
              let range : b < length s.idom = omega (arith, in_range succs body b walk, h.size) in
              rw differ (
                assigned-IsLevel succs nums g k s.idom b nd (write b (some nd) s.idom) h walk other
                  new (length-write b (some nd) s.idom)
                  (at_or-write_same none b (some nd) s.idom range)
                  (λ y d. at_or-write_other none b y (some nd) s.idom (λ q. d (sym q))))
        ],
      )

  -- Where all blocks are ahead, a round is done.
  next-IsLevel :
      (i : ℕ) (idom : List (Option BlockId))
      → IsLevel succs nums k i idom
      → ((x : BlockId) → Walk succs x → number nums x < i)
      → IsLevel succs nums (suc k) 1 idom
  next-IsLevel i idom h all = record {
    size = h.size;
    root = h.root;
    below = h.below;
    reached = h.reached;
    found = λ x w short. (h.ahead x w (all x w)).0;
    within = λ x p ne e. let w = h.reached x (p, e) in (h.ahead x w (all x w)).1 p ne e;
    kept = h.kept;
    ahead = λ x w lt.
        let root : x ≡ 0 = g.apart x 0 w entry (omega (arith, lt, g.first)) in
        ((h.ahead x w (all x w)).0, λ p ne e. absurd (ne root));
  }

  -- A round takes the tree one level further.
  pub pass_lem :
      (rest : List BlockId) (i : ℕ) (s : Dominating)
      → IsTail succs nums i rest
      → IsLevel succs nums k i s.idom
      → (t : Dominating) × (pass preds nums rest s ≡ some t) × IsLevel succs nums (suc k) 1 t.idom
  unfolding pass bind
  pass_lem [] i s all h = (s, refl, next-IsLevel i s.idom h all)
  pass_lem (b ∷ rest) i s (at, walk, other, tail) h =
      let (nd, ran, m, level) =
        update_lem b s walk other (subst (λ j. IsLevel succs nums k j s.idom) (sym at) h) in
      let (t, ran', further) =
        pass_lem rest (suc i) (assign b (some nd) s) tail
          (subst (λ j. IsLevel succs nums k (suc j) (assign b (some nd) s).idom) at level) in
      (t, rw (ran, pass, bind) ran', further)
