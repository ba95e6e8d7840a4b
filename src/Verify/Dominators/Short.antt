-- ===== src/Verify/Dominators/Short.antt =====
-- Walks that visit no block twice: they suffice to tell what dominates a block. The short walks are
-- those of the depth-first search, of the graph whose edges out of one block are cut.
use astronomy.Prelude.{
  ℕ, zero, suc, ◌<◌, ◌≤◌, ◌≡◌, ◌≢◌, ◌⊎◌, refl, sym, ap, ◌∙◌, subst, List, [], ◌∷◌, length, arith,
  Bool-cases, ==_iff, ◌==◌, inl, inr,
}
use mathlib.Core.Logic.{⊎_elim}
use mathlib.Core.List.{Memᴰ}
use mathlib.Core.List.Memᴰ
use astronomy.Prelude.Arrays.{at_or, write, length-write, at_or-write_other}
use astronomy.Prelude.Orders.{Precedes, Distinct}
use astronomy.Ir.Functions.{BlockId}
use astronomy.Verify.Cfg.{targets}
use astronomy.Verify.Cfg.Dfs.{Edge, Walk, entry, along}
use astronomy.Verify.Cfg.Dfs.Ends.{search_post-Precedes}
use astronomy.Verify.Dominators.Walks.{steps, Passes, Dominates, DominatesWithin}

pub in_range :
    (succs : List (List BlockId))
    → 0 < length succs
    → (x : BlockId) → Walk succs x
    → x < length succs
in_range succs body x entry = body
in_range succs body x (along w e) = e.1

pub same_or_not : (a b : ℕ) → (a ≡ b) ⊎ (a ≢ b)
same_or_not a b = elim (Bool-cases (a == b)) [
  | inl e ↦ inl ((==_iff a b).0 e)
  | inr e ↦ inr (λ s. let t = (==_iff a b).1 s in cc)
]

-- A list without `a`, at most one shorter.
without :
    (a : ℕ) (xs : List ℕ)
    → Distinct xs
    → (ys : List ℕ) × Distinct ys
      × ((v : ℕ) → Memᴰ v ys → Memᴰ v xs × (v ≢ a))
      × (length xs ≤ suc (length ys))
without a [] d = ([], d, λ v m. absurd (Memᴰ.not-nil m), omega arith)
without a (x ∷ xs) (fresh, d) = elim (same_or_not x a) [
  | inl e ↦ (
    xs,
    d,
    λ v m. (Memᴰ.tail m, λ same. fresh (subst (λ y. Memᴰ y xs) (same ∙ sym e) m)),
    omega arith,
  )
  | inr other ↦
      let (ys, dy, from, long) = without a xs d in
      (
        x ∷ ys,
        (λ m. fresh (from x m).0, dy),
        λ v m.
            ⊎_elim (λ e. (Memᴰ.head e, λ same. other (sym e ∙ same)))
              (λ later. (Memᴰ.tail (from v later).0, (from v later).1)) (Memᴰ.cases_cons m),
        omega (arith, long),
      )
]

-- Numbers below `n`, each once, are at most `n`.
length-Distinct :
    (n : ℕ) (xs : List ℕ) → Distinct xs → ((v : ℕ) → Memᴰ v xs → v < n) → length xs ≤ n
length-Distinct zero [] d below = omega arith
length-Distinct zero (x ∷ xs) d below = absurd (omega (arith, below x (Memᴰ.head refl)))
length-Distinct (suc n) xs d below =
    let (ys, dy, from, long) = without n xs d in
    let rest = length-Distinct n ys dy (λ v m.
      let lt = below v (from v m).0 in
      let other = (from v m).1 in
      elim (same_or_not v n) [ inl e ↦ absurd (other e) | inr h ↦ omega (arith, lt, h) ]) in
    omega (arith, long, rest)

pub Precedes-Memᴰ : (v u : ℕ) (xs : List ℕ) → Precedes v u xs → Memᴰ u xs
Precedes-Memᴰ v u [] h = absurd h
Precedes-Memᴰ v u (x ∷ xs) (inl (e, m)) = Memᴰ.tail m
Precedes-Memᴰ v u (x ∷ xs) (inr h) = Memᴰ.tail (Precedes-Memᴰ v u xs h)

-- Where each block but the entry follows one of its predecessors, each has a walk that is no longer
-- than the list.
short_walks :
    (succs : List (List BlockId)) (xs : List BlockId)
    → Distinct xs
    → ((v : BlockId) → Memᴰ v xs → v ≢ 0 → (u : BlockId) × Edge succs u v × Precedes v u xs)
    → (v : BlockId) → Memᴰ v xs
    → (w : Walk succs v) × (steps succs v w ≤ length xs)
short_walks succs [] d parent v m = absurd (Memᴰ.not-nil m)
short_walks succs (x ∷ xs) (fresh, d) parent v m =
    let later = short_walks succs xs d (λ y my other.
      let (u, e, p) = parent y (Memᴰ.tail my) other in
      (u, e, ⊎_elim (λ same. absurd (fresh (subst (λ z. Memᴰ z xs) same.0 my))) (λ h. h) p)) in
    ⊎_elim
      (λ same. elim (same_or_not v 0) [
        | inl root ↦
            subst (λ z. (w : Walk succs z) × (steps succs z w ≤ suc (length xs))) (sym root)
              (entry, omega arith)
        | inr other ↦
            let (u, e, p) = parent v m other in
            let mu : Memᴰ u xs = ⊎_elim (λ h. h.1) (Precedes-Memᴰ v u xs) p in
            let (w, short) = later u mu in (along w e, omega (arith, short))
      ])
      (λ inside. let (w, short) = later v inside in (w, omega (arith, short))) (Memᴰ.cases_cons m)

-- A block that control reaches has a walk of at most as many steps as there are blocks.
pub short_walk :
    (succs : List (List BlockId))
    → 0 < length succs
    → (v : BlockId) → Walk succs v
    → (w : Walk succs v) × (steps succs v w ≤ length succs)
short_walk succs body v w =
    let (t, ran, distinct, reach, parent) = search_post-Precedes succs body in
    let (d, short) = short_walks succs t.post distinct parent v ((reach v).0 w) in
    (
      d,
      omega (
        arith,
        short,
        length-Distinct (length succs) t.post distinct
            (λ x m. in_range succs body x ((reach x).1 m)),
      ),
    )

at_or-write_blank : (i : ℕ) (xs : List (List BlockId)) → at_or [] (write i [] xs) i ≡ []
at_or-write_blank i [] = refl
at_or-write_blank zero (x ∷ xs) = refl
at_or-write_blank (suc i) (x ∷ xs) = at_or-write_blank i xs

module _ (succs : List (List BlockId)) (z : BlockId) where
  -- The graph without the edges that leave `z`.
  abbrev cut : List (List BlockId)
  cut = write z [] succs

  Edge_of_cut : (u v : BlockId) → Edge cut u v → (u ≢ z) × Edge succs u v
  Edge_of_cut u v (m, range) =
      let other : u ≢ z = λ e. Memᴰ.not-nil (
        subst (λ l. Memᴰ v l) (at_or-write_blank z succs)
          (subst (λ x. Memᴰ v (targets cut x)) e m)) in
      (
        other,
        (
          subst (λ l. Memᴰ v l) (at_or-write_other [] z u [] succs (λ e. other (sym e))) m,
          subst (λ (n : ℕ). v < n) (length-write z [] succs) range,
        ),
      )

  Edge_cut : (u v : BlockId) → u ≢ z → Edge succs u v → Edge cut u v
  Edge_cut u v other (m, range) = (
    subst (λ l. Memᴰ v l) (sym (at_or-write_other [] z u [] succs (λ e. other (sym e)))) m,
    subst (λ (n : ℕ). v < n) (sym (length-write z [] succs)) range,
  )

  -- A walk passes `z`, or it is a walk of the cut graph.
  Passes-or_cut : (v : BlockId) (w : Walk succs v) → Passes succs z v w ⊎ ((v ≢ z) × Walk cut v)
  Passes-or_cut v entry = elim (same_or_not z 0) [
    | inl e ↦ inl e
    | inr other ↦ inr (λ e. other (sym e), entry)
  ]
  Passes-or_cut v (along {u = u} w e) = elim (Passes-or_cut u w) [
    | inl p ↦ inl (inr p)
    | inr (far, w') ↦ elim (same_or_not z v) [
      | inl here ↦ inl (inl here)
      | inr other ↦ inr (λ s. other (sym s), along w' (Edge_cut u v far e))
    ]
  ]

  -- A walk of the cut graph that does not end at `z` does not pass `z`.
  walk_of_cut :
      (v : BlockId) (w : Walk cut v)
      → v ≢ z
      → (w' : Walk succs v) × (steps succs v w' ≡ steps cut v w) × ¬ Passes succs z v w'
  walk_of_cut v entry other = (entry, refl, λ p. other (sym p))
  walk_of_cut v (along {u = u} w e) other =
      let (far, e') = Edge_of_cut u v e in
      let (w', same, avoids) = walk_of_cut u w far in
      (along w' e', ap suc same, ⊎_elim (λ p. other (sym p)) avoids)

  -- Walks of at most as many steps as there are blocks tell what dominates a block.
  pub DominatesWithin-Dominates :
      0 < length succs
      → (v : BlockId) → DominatesWithin succs (length succs) z v
      → Dominates succs z v
  DominatesWithin-Dominates body v within w = elim (Passes-or_cut v w) [
    | inl p ↦ p
    | inr (other, c) ↦
        let size = length-write z [] succs in
        let (t, ran, distinct, reach, parent) =
          search_post-Precedes cut (omega (arith, size, body)) in
        let ranged : (x : ℕ) → Memᴰ x t.post → x < length succs = λ x m.
          subst (λ (k : ℕ). x < k) size
            (in_range cut (omega (arith, size, body)) x ((reach x).1 m)) in
        let (d, short) = short_walks cut t.post distinct parent v ((reach v).0 c) in
        let (w', same, avoids) = walk_of_cut v d other in
        absurd (
          avoids (
            within w'
              (omega (arith, same, short, length-Distinct (length succs) t.post distinct ranged))))
  ]
