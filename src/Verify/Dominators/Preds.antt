-- ===== src/Verify/Dominators/Preds.antt =====
-- The lists of predecessors, as `compute` makes them.
use astronomy.Prelude.{
  ℕ, ◌<◌, ◌≡◌, ◌⊎◌, ◌↔◌, refl, sym, ◌∙◌, subst, List, [], ◌∷◌, ◌++◌, length, arith, inl, inr, ltb,
  ltb→lt, Bool-cases,
}
use mathlib.Core.Logic.{⊎_elim}
use mathlib.Core.List.{Memᴰ}
use mathlib.Core.List.Memᴰ
use astronomy.Prelude.Arrays.{
  at_or, filled, length-write, length-filled, at_or-filled, at_or-write_same, at_or-write_other,
}
use astronomy.Ir.Functions.{BlockId}
use astronomy.Verify.Loops.{each}
use astronomy.Verify.Cfg.{targets}
use astronomy.Verify.Cfg.Dfs.{Edge}
use astronomy.Verify.Dominators.{add_pred, add_preds, predecessors}
use astronomy.Verify.Dominators.Short.{same_or_not}

-- The lists `new` hold what `old` held, and the pairs of `P`.
record Adds (n : ℕ) (P : BlockId → BlockId → Type 0) (old new : List (List BlockId)) : Type 0 where
  size : length new ≡ n
  held : (q v : BlockId) → Memᴰ q (at_or [] new v) ↔ (Memᴰ q (at_or [] old v) ⊎ P q v)

add_pred-Adds :
    (n : ℕ) (b s : BlockId) (ps : List (List BlockId))
    → length ps ≡ n
    → Adds n (λ q v. (q ≡ b) × (v ≡ s) × (v < n)) ps (add_pred n b s ps)
add_pred-Adds n b s ps size = elim (Bool-cases (ltb s n)) [
  | inr far ↦ rw far (record {
    size = size;
    held = λ q v. (inl, ⊎_elim (λ m. m) (λ (e, at, lt). absurd (ground (arith, far, at, lt))));
  })
  | inl near ↦
      let lt = ltb→lt s n near in
      rw near (record {
        size = length-write s (at_or [] ps s ++ (b ∷ [])) ps ∙ size;
        held = λ q v. elim (same_or_not v s) [
          | inr d ↦
              rw (at_or-write_other [] s v (at_or [] ps s ++ (b ∷ [])) ps (λ e. d (sym e)))
                (inl, ⊎_elim (λ m. m) (λ p. absurd (d p.1)))
          | inl here ↦
              rw
                (
                  here,
                  at_or-write_same [] s (at_or [] ps s ++ (b ∷ [])) ps (omega (arith, lt, size)),
                )
                (
                  λ m.
                      ⊎_elim inl (λ last. inr (Memᴰ.eq_of_singleton last, refl, lt))
                        (Memᴰ.append_cases (at_or [] ps s) m),
                  ⊎_elim (λ m. Memᴰ.append_left (b ∷ []) m)
                      (λ p. Memᴰ.append_right (at_or [] ps s) (Memᴰ.head p.0)),
                )
        ];
      })
]

-- A loop adds what its rounds add.
each-Adds :
    (n : ℕ) (body : BlockId → List (List BlockId) → List (List BlockId))
    (P : BlockId → BlockId → BlockId → Type 0)
    → ((s : BlockId) (ps : List (List BlockId)) → length ps ≡ n → Adds n (P s) ps (body s ps))
    → (ss : List BlockId) (ps : List (List BlockId)) → length ps ≡ n
    → Adds n (λ q v. (s : BlockId) × Memᴰ s ss × P s q v) ps (each body ss ps)
unfolding each
each-Adds n body P round [] ps size = record {
  size = size;
  held = λ q v. (inl, ⊎_elim (λ m. m) (λ (s, m, p). absurd (Memᴰ.not-nil m)));
}
each-Adds n body P round (s ∷ ss) ps size =
    let one = round s ps size in
    let all = each-Adds n body P round ss (body s ps) one.size in
    record {
      size = all.size;
      held = λ q v. (
        λ m.
            ⊎_elim
              (λ before. ⊎_elim inl (λ p. inr (s, Memᴰ.head refl, p)) ((one.held q v).0 before))
              (λ (t, mt, p). inr (t, Memᴰ.tail mt, p)) ((all.held q v).0 m),
        ⊎_elim (λ old. (all.held q v).1 (inl ((one.held q v).1 (inl old))))
            (λ (t, mt, p).
              ⊎_elim
                (λ e. (all.held q v).1 (inl ((one.held q v).1 (inr (subst (λ x. P x q v) e p)))))
                (λ later. (all.held q v).1 (inr (t, later, p))) (Memᴰ.cases_cons mt)),
      );
    }

module _ (succs : List (List BlockId)) (rpo : List BlockId) where
  add_preds-Adds :
      (b : BlockId) (ps : List (List BlockId))
      → length ps ≡ length succs
      → Adds
          (length succs)
          (λ q v.
            (s : BlockId) × Memᴰ s (targets succs b) × ((q ≡ b) × (v ≡ s) × (v < length succs)))
          ps
          (add_preds succs b ps)
  unfolding add_preds
  add_preds-Adds b ps size =
      each-Adds (length succs) (add_pred (length succs) b)
        (λ s q v. (q ≡ b) × (v ≡ s) × (v < length succs))
        (λ s qs e. add_pred-Adds (length succs) b s qs e) (targets succs b) ps size

  -- The predecessors of a block are the blocks of the list with an edge to it.
  pub predecessors_lem :
      (q v : BlockId) → Memᴰ q (at_or [] (predecessors succs rpo) v) ↔ (Memᴰ q rpo × Edge succs q v)
  unfolding predecessors
  predecessors_lem q v =
      let blank = filled (length succs) [] in
      let all =
        each-Adds (length succs) (add_preds succs)
          (λ b x y.
            (s : BlockId) × Memᴰ s (targets succs b) × ((x ≡ b) × (y ≡ s) × (y < length succs)))
          add_preds-Adds rpo blank (length-filled (length succs) []) in
      (
        λ m.
            ⊎_elim
              (λ old. absurd (Memᴰ.not-nil (subst (Memᴰ q) (at_or-filled (length succs) [] v) old)))
              (λ (b, mb, (s, ms, (e, f, lt))). (
                subst (λ x. Memᴰ x rpo) (sym e) mb,
                (
                  subst (λ x. Memᴰ v (targets succs x)) (sym e)
                      (subst (λ y. Memᴰ y (targets succs b)) (sym f) ms),
                  lt,
                ),
              ))
              ((all.held q v).0 m),
        λ (mq, edge). (all.held q v).1 (inr (q, mq, (v, edge.0, (refl, refl, edge.1)))),
      )
