-- ===== src/Verify/Dominators/Exact.antt =====
-- `compute` ends, and its tree tells what dominates a block.
use astronomy.Prelude.{
  ℕ, ◌+◌, ◌<◌, ◌≤◌, ◌≡◌, ◌≢◌, ◌↔◌, refl, sym, ap, ◌∙◌, subst, List, [], ◌∷◌, length, drop, Option,
  none, some, arith, inl, inr,
}
use mathlib.Core.Logic.{⊎_elim}
use mathlib.Core.List.{Memᴰ, reverse}
use mathlib.Core.List.Memᴰ
use astronomy.Prelude.Arrays.{
  write, filled, length-write, length-filled, at_or-filled, at_or-write_same, at_or-write_other,
}
use astronomy.Ir.Functions.{BlockId}
use astronomy.Verify.Cfg.Dfs.{Edge, Walk, entry, along}
use astronomy.Verify.Cfg.Dfs.Ends.{IsPostorder}
use astronomy.Verify.Dominators.{usize_max, number, parent, rpo_numbers, predecessors, settle}
use astronomy.Verify.Dominators.Walks.{steps}
use astronomy.Verify.Dominators.Short.{same_or_not, in_range, Precedes-Memᴰ}
use astronomy.Verify.Dominators.Chains.{Processed}
use astronomy.Verify.Dominators.Levels.{IsNumbered, IsLevel}
use astronomy.Verify.Dominators.Rounds.{IsPredecessors, IsTail}
use astronomy.Verify.Dominators.Settled.{IsExact, settle_lem}
use astronomy.Verify.Dominators.Numbers.{
  Memᴰ-reverse, Distinct-reverse, Precedes-reverse, Numbered, Numbered-each_from, Numbered-le,
  Numbered-Precedes, Numbered-apart, Numbered-IsTail,
}
use astronomy.Verify.Dominators.Preds.{predecessors_lem}

entry_first :
    (nums : List ℕ) (rpo : List BlockId)
    → Numbered nums 0 rpo
    → Memᴰ 0 rpo
    → ((v : BlockId) → Memᴰ v rpo → v ≢ 0 → (u : BlockId) × (number nums u < number nums v))
    → (rest : List BlockId) × (rpo ≡ 0 ∷ rest)
entry_first nums [] n m earlier = absurd (Memᴰ.not-nil m)
entry_first nums (v ∷ rest) (e, n) m earlier = elim (same_or_not v 0) [
  | inl s ↦ (rest, ap (λ x. x ∷ rest) s)
  | inr d ↦ let (u, lt) = earlier v (Memᴰ.head refl) d in absurd (omega (arith, lt, e))
]

module _ (succs : List (List BlockId)) (body : 0 < length succs) (post : List BlockId)
    (facts : IsPostorder succs post) where
  abbrev rpo : List BlockId
  rpo = reverse post

  abbrev nums : List ℕ
  nums = rpo_numbers (length succs) rpo

  listed : (v : BlockId) → Walk succs v ↔ Memᴰ v rpo
  listed v = (
    λ w. (Memᴰ-reverse v post).1 ((facts.reach v).0 w),
    λ m. (facts.reach v).1 ((Memᴰ-reverse v post).0 m),
  )

  numbered : Numbered nums 0 rpo
  unfolding rpo_numbers
  numbered =
      Numbered-each_from 0 rpo (filled (length succs) usize_max)
        (Distinct-reverse post facts.distinct)
        (λ v m.
          omega
            (arith, length-filled (length succs) usize_max, in_range succs body v ((listed v).1 m)))

  earlier :
      (x : BlockId)
      → Walk succs x
      → x ≢ 0
      → (u : BlockId) × Walk succs u × Edge succs u x × (number nums u < number nums x)
  earlier x w other =
      let (u, edge, before) = facts.parent x ((facts.reach x).0 w) other in
      (
        u,
        (facts.reach u).1 (Precedes-Memᴰ x u post before),
        edge,
        Numbered-Precedes nums 0 u x rpo numbered (Precedes-reverse x u post before),
      )

  from_entry : (rest : List BlockId) × (rpo ≡ 0 ∷ rest)
  from_entry =
      entry_first nums rpo numbered ((listed 0).0 entry)
        (λ v m other. let (u, _, _, lt) = earlier v ((listed v).1 m) other in (u, lt))

  Numbered-rest : (number nums 0 ≡ 0) × Numbered nums 1 from_entry.0
  Numbered-rest = subst (Numbered nums 0) from_entry.1 numbered

  pub nums-IsNumbered : IsNumbered succs nums
  nums-IsNumbered = record {
    first = Numbered-rest.0;
    apart =
        λ x y wx wy e. Numbered-apart nums 0 x y rpo numbered ((listed x).0 wx) ((listed y).0 wy) e;
    earlier = earlier;
  }

  round-IsTail : IsTail succs nums 1 (drop 1 rpo)
  round-IsTail =
      let (rest, e) = from_entry in
      let (first, n) = Numbered-rest in
      subst (λ l. IsTail succs nums 1 (drop 1 l)) (sym e)
        (Numbered-IsTail nums succs 1 rest n
          (λ v m. (
            (listed v).1 (subst (Memᴰ v) (sym e) (Memᴰ.tail m)),
            λ s. omega (arith, Numbered-le nums 1 v rest n m, first, ap (number nums) s),
          ))
          (λ x w.
            ⊎_elim (λ s. inr (omega (arith, first, ap (number nums) s))) inl
              (Memᴰ.cases_cons (subst (Memᴰ x) e ((listed x).0 w)))))

  preds-IsPredecessors : IsPredecessors succs (predecessors succs rpo)
  preds-IsPredecessors q v = (
    λ m. let (mq, e) = (predecessors_lem succs rpo q v).0 m in ((listed q).1 mq, e),
    λ (w, e). (predecessors_lem succs rpo q v).1 ((listed q).0 w, e),
  )

  abbrev blank : List (Option BlockId)
  blank = write 0 (some 0) (filled (length succs) none)

  blank_length : length (filled {A = Option BlockId} (length succs) none) ≡ length succs
  blank_length = length-filled (length succs) none

  blank_root : parent blank 0 ≡ some 0
  blank_root =
      at_or-write_same none 0 (some 0) (filled (length succs) none)
        (omega (arith, body, blank_length))

  blank_other : (x p : BlockId) → parent blank x ≡ some p → x ≡ 0
  blank_other x p e = elim (same_or_not x 0) [
    | inl s ↦ s
    | inr d ↦
        let no : parent blank x ≡ none =
          at_or-write_other none 0 x (some 0) (filled (length succs) none) (λ s. d (sym s))
          ∙ at_or-filled (length succs) none x in
        absurd (let z = sym no ∙ e in cc)
  ]

  blank_found : (x : BlockId) (w : Walk succs x) → steps succs x w ≤ 0 → Processed blank x
  blank_found x entry short = (0, blank_root)
  blank_found x (along w e) short = absurd (omega (arith, short))

  blank-IsLevel : IsLevel succs nums 0 1 blank
  blank-IsLevel = record {
    size = length-write 0 (some 0) (filled (length succs) none) ∙ blank_length;
    root = blank_root;
    below = λ x p ne e. absurd (ne (blank_other x p e));
    reached = λ x (p, e). subst (Walk succs) (sym (blank_other x p e)) entry;
    found = blank_found;
    within = λ x p ne e. absurd (ne (blank_other x p e));
    kept = λ x p z ne e. absurd (ne (blank_other x p e));
    ahead = λ x w lt.
        let root = nums-IsNumbered.apart x 0 w entry (omega (arith, lt, nums-IsNumbered.first)) in
        ((0, ap (parent blank) root ∙ blank_root), λ p ne e. absurd (ne root));
  }

  -- The rounds end with an exact tree.
  pub settles :
      (tree : List (Option BlockId)) × (settle
          (length succs + 2)
          (predecessors succs rpo)
          nums
          (drop 1 rpo)
          blank
        ≡ some tree)
      × IsExact succs nums tree
  settles =
      settle_lem succs (predecessors succs rpo) nums nums-IsNumbered preds-IsPredecessors body
        (length succs + 2) 0 (drop 1 rpo) blank round-IsTail blank-IsLevel (omega arith)
        (omega arith)
