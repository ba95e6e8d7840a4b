-- ===== src/Verify/Dominators/Meets.antt =====
-- The predecessors of a block merged: the lowest block above all that were processed.
use astronomy.Prelude.{
  ℕ, ◌≡◌, refl, sym, ◌∙◌, subst, List, [], ◌∷◌, Option, none, some, Option-cases, inl, inr,
}
use mathlib.Core.Logic.{⊎_elim}
use mathlib.Core.List.{Memᴰ}
use mathlib.Core.List.Memᴰ
use mathlib.Core.Option.{bind}
use astronomy.Ir.Functions.{BlockId}
use astronomy.Verify.Dominators.{parent, merge_preds}
use astronomy.Verify.Dominators.Chains.{
  Above, here, Processed, IsTree, Above-Processed, Above-trans, intersect_lem,
}

abbrev pub AboveAll : List (Option BlockId) → BlockId → List BlockId → Type 0
AboveAll idom z ps = (q : BlockId) → Memᴰ q ps → Processed idom q → Above idom z q

abbrev pub AboveOpt : List (Option BlockId) → BlockId → Option BlockId → Type 0
AboveOpt idom z none = Unit {0}
AboveOpt idom z (some c) = Above idom z c

abbrev pub IsOptProcessed : List (Option BlockId) → Option BlockId → Type 0
IsOptProcessed idom none = Unit {0}
IsOptProcessed idom (some c) = Processed idom c

-- What the loop over the predecessors `ps` makes of `acc`.
abbrev pub IsMerged :
    List (Option BlockId) → List BlockId → Option BlockId → Option BlockId → Type 0
IsMerged idom ps acc none = (acc ≡ none) × ((q : BlockId) → Memᴰ q ps → ¬ Processed idom q)
IsMerged idom ps acc (some c) =
    Processed idom c
    × AboveOpt idom c acc
    × AboveAll idom c ps
    × ((z : BlockId) → AboveOpt idom z acc → AboveAll idom z ps → Above idom z c)

module _ (nums : List ℕ) (idom : List (Option BlockId)) (h : IsTree nums idom) where
  AboveAll-cons :
      (z p : BlockId) (ps : List BlockId)
      → (Processed idom p → Above idom z p)
      → AboveAll idom z ps
      → AboveAll idom z (p ∷ ps)
  AboveAll-cons z p ps first rest q m done =
      ⊎_elim (λ e. subst (Above idom z) (sym e) (first (subst (Processed idom) e done)))
        (λ later. rest q later done) (Memᴰ.cases_cons m)

  AboveAll-tail :
      (z p : BlockId) (ps : List BlockId) → AboveAll idom z (p ∷ ps) → AboveAll idom z ps
  AboveAll-tail z p ps all q m = all q (Memᴰ.tail m)

  -- A predecessor that was not processed is skipped.
  IsMerged-skip :
      (p : BlockId) (ps : List BlockId) (acc r : Option BlockId)
      → ¬ Processed idom p
      → IsMerged idom ps acc r
      → IsMerged idom (p ∷ ps) acc r
  IsMerged-skip p ps acc none not_done (e, fresh) = (
    e,
    λ q m done.
        ⊎_elim (λ s. not_done (subst (Processed idom) s done)) (λ later. fresh q later done)
          (Memᴰ.cases_cons m),
  )
  IsMerged-skip p ps acc (some c) not_done (done, above, all, lowest) = (
    done,
    above,
    AboveAll-cons c p ps (λ pd. absurd (not_done pd)) all,
    λ z az every. lowest z az (AboveAll-tail z p ps every),
  )

  -- The first predecessor that was processed.
  IsMerged-first :
      (p : BlockId) (ps : List BlockId) (r : Option BlockId)
      → Processed idom p
      → IsMerged idom ps (some p) r
      → IsMerged idom (p ∷ ps) none r
  IsMerged-first p ps none pd (e, fresh) = cc
  IsMerged-first p ps (some c) pd (done, above, all, lowest) = (
    done,
    tt,
    AboveAll-cons c p ps (λ _. above) all,
    λ z az every. lowest z (every p (Memᴰ.head refl) pd) (AboveAll-tail z p ps every),
  )

  -- A further one, with `c` the lowest block above it and `cur`.
  IsMerged-next :
      (p cur c : BlockId) (ps : List BlockId) (r : Option BlockId)
      → Processed idom p
      → Above idom c p
      → Above idom c cur
      → ((z : BlockId) → Above idom z p → Above idom z cur → Above idom z c)
      → IsMerged idom ps (some c) r
      → IsMerged idom (p ∷ ps) (some cur) r
  IsMerged-next p cur c ps none pd cp c_cur low (e, fresh) = cc
  IsMerged-next p cur c ps (some d) pd cp c_cur low (done, above, all, lowest) = (
    done,
    Above-trans nums idom h d c cur above c_cur,
    AboveAll-cons d p ps (λ _. Above-trans nums idom h d c p above cp) all,
    λ z az every. lowest z (low z (every p (Memᴰ.head refl) pd) az) (AboveAll-tail z p ps every),
  )

  pub merge_preds_lem :
      (ps : List BlockId) (acc : Option BlockId)
      → IsOptProcessed idom acc
      → (r : Option BlockId) × (merge_preds nums idom ps acc ≡ some r) × IsMerged idom ps acc r
  unfolding merge_preds bind
  merge_preds_lem [] none done = (none, refl, (refl, λ q m. absurd (Memᴰ.not-nil m)))
  merge_preds_lem [] (some c) done =
      (some c, refl, (done, here, (λ q m. absurd (Memᴰ.not-nil m)), λ z az every. az))
  merge_preds_lem (p ∷ ps) none done = elim (Option-cases (parent idom p)) [
    | inl e ↦
        let (r, ran, m) = merge_preds_lem ps none done in
        (
          r,
          rw (e, merge_preds, bind) ran,
          IsMerged-skip p ps none r (λ pd. let s = sym e ∙ pd.1 in cc) m,
        )
    | inr (q, e) ↦
        let (r, ran, m) = merge_preds_lem ps (some p) (q, e) in
        (r, rw (e, merge_preds, bind) ran, IsMerged-first p ps r (q, e) m)
  ]
  merge_preds_lem (p ∷ ps) (some cur) done = elim (Option-cases (parent idom p)) [
    | inl e ↦
        let (r, ran, m) = merge_preds_lem ps (some cur) done in
        (
          r,
          rw (e, merge_preds, bind) ran,
          IsMerged-skip p ps (some cur) r (λ pd. let s = sym e ∙ pd.1 in cc) m,
        )
    | inr (q, e) ↦
        let (c, met, cp, c_cur, low) = intersect_lem nums idom h p cur (q, e) done in
        let (r, ran, m) = merge_preds_lem ps (some c) (Above-Processed nums idom h c p cp (q, e)) in
        (r, rw (e, met, merge_preds, bind) ran, IsMerged-next p cur c ps r (q, e) cp c_cur low m)
  ]
