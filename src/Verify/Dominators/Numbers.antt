-- ===== src/Verify/Dominators/Numbers.antt =====
-- The reverse post-order, its numbers and the predecessors, as `compute` makes them from the search.
use astronomy.Prelude.{
  ℕ, suc, ◌+◌, ◌<◌, ◌≤◌, ◌≡◌, ◌≢◌, ◌⊎◌, ◌↔◌, refl, sym, ap, ◌∙◌, subst, List, [], ◌∷◌, ◌++◌, length,
  arith, inl, inr, append-nil,
}
use mathlib.Core.Logic.{⊎_elim}
use mathlib.Core.List.{Memᴰ, reverse, reverse-cons}
use mathlib.Core.List.Memᴰ
use astronomy.Prelude.Arrays.{write, length-write, at_or-write_same, at_or-write_other}
use astronomy.Prelude.Orders.{Precedes, Distinct, Memᴰ-insert, Precedes-insert, Distinct-insert}
use astronomy.Ir.Functions.{BlockId}
use astronomy.Verify.Loops.{each_from}
use astronomy.Verify.Cfg.Dfs.{Walk}
use astronomy.Verify.Dominators.{number, usize_max}
use astronomy.Verify.Dominators.Rounds.{IsTail}

pub Memᴰ-reverse : (v : ℕ) (xs : List ℕ) → Memᴰ v (reverse xs) ↔ Memᴰ v xs
Memᴰ-reverse v [] = (λ m. m, λ m. m)
Memᴰ-reverse v (x ∷ xs) =
    let step = Memᴰ-insert v x (reverse xs) [] in
    let (back, forth) = Memᴰ-reverse v xs in
    rw (reverse-cons x xs) (
      λ m.
          ⊎_elim Memᴰ.head (λ n. Memᴰ.tail (back (subst (Memᴰ v) (append-nil (reverse xs)) n)))
            (step.0 m),
      λ m. step.1 (
          ⊎_elim inl (λ n. inr (subst (Memᴰ v) (sym (append-nil (reverse xs))) (forth n)))
            (Memᴰ.cases_cons m)),
    )

pub Distinct-reverse : (xs : List ℕ) → Distinct xs → Distinct (reverse xs)
Distinct-reverse [] d = tt
Distinct-reverse (x ∷ xs) (fresh, d) =
    let same = sym (append-nil (reverse xs)) in
    rw (reverse-cons x xs) (
      Distinct-insert x (reverse xs) []
        (λ m. fresh ((Memᴰ-reverse x xs).0 (subst (Memᴰ x) (sym same) m)))
        (subst Distinct same (Distinct-reverse xs d)))

Precedes-last : (u x : ℕ) (xs : List ℕ) → Memᴰ u xs → Precedes u x (xs ++ (x ∷ []))
Precedes-last u x [] m = absurd (Memᴰ.not-nil m)
Precedes-last u x (y ∷ xs) m =
    ⊎_elim (λ e. inl (e, Memᴰ.append_right xs (Memᴰ.head refl))) (λ n. inr (Precedes-last u x xs n))
      (Memᴰ.cases_cons m)

pub Precedes-reverse : (v u : ℕ) (xs : List ℕ) → Precedes v u xs → Precedes u v (reverse xs)
Precedes-reverse v u [] p = p
Precedes-reverse v u (x ∷ xs) (inl (e, m)) = rw (reverse-cons x xs) (
    subst (λ y. Precedes u y (reverse xs ++ (x ∷ []))) (sym e)
      (Precedes-last u x (reverse xs) ((Memᴰ-reverse u xs).1 m)))
Precedes-reverse v u (x ∷ xs) (inr p) = rw (reverse-cons x xs) (
    Precedes-insert u v x (reverse xs) []
      (subst (Precedes u v) (sym (append-nil (reverse xs))) (Precedes-reverse v u xs p)))

-- The blocks of the list have the numbers from `i` on.
abbrev pub Numbered : List ℕ → ℕ → List BlockId → Type 0
Numbered nums i [] = Unit {0}
Numbered nums i (x ∷ xs) = (number nums x ≡ i) × Numbered nums (suc i) xs

abbrev write_number : ℕ → BlockId → List ℕ → List ℕ
write_number i b nums = write b i nums

number_kept :
    (i v : ℕ) (xs : List BlockId) (nums : List ℕ)
    → ¬ Memᴰ v xs
    → number (each_from write_number i xs nums) v ≡ number nums v
unfolding each_from
number_kept i v [] nums fresh = refl
number_kept i v (x ∷ xs) nums fresh =
    number_kept (i + 1) v xs (write x i nums) (λ m. fresh (Memᴰ.tail m))
    ∙ at_or-write_other usize_max x v i nums (λ e. fresh (Memᴰ.head (sym e)))

pub Numbered-each_from :
    (i : ℕ) (xs : List BlockId) (nums : List ℕ)
    → Distinct xs
    → ((v : BlockId) → Memᴰ v xs → v < length nums)
    → Numbered (each_from write_number i xs nums) i xs
unfolding each_from
Numbered-each_from i [] nums d fits = tt
Numbered-each_from i (x ∷ xs) nums (fresh, d) fits = (
  number_kept (i + 1) x xs (write x i nums) fresh
      ∙ at_or-write_same usize_max x i nums (fits x (Memᴰ.head refl)),
  subst (λ j. Numbered (each_from write_number (i + 1) xs (write x i nums)) j xs)
      (let e : i + 1 ≡ suc i = omega arith in e)
      (Numbered-each_from (i + 1) xs (write x i nums) d
        (λ v m. omega (arith, fits v (Memᴰ.tail m), length-write x i nums))),
)

module _ (nums : List ℕ) where
  pub Numbered-le :
      (i v : ℕ) (xs : List BlockId) → Numbered nums i xs → Memᴰ v xs → i ≤ number nums v
  Numbered-le i v [] n m = absurd (Memᴰ.not-nil m)
  Numbered-le i v (x ∷ xs) (e, n) m =
      ⊎_elim (λ s. omega (arith, e, ap (number nums) s))
        (λ later. omega (arith, Numbered-le (suc i) v xs n later)) (Memᴰ.cases_cons m)

  pub Numbered-Precedes :
      (i u v : ℕ) (xs : List BlockId)
      → Numbered nums i xs
      → Precedes u v xs
      → number nums u < number nums v
  Numbered-Precedes i u v [] n p = absurd p
  Numbered-Precedes i u v (x ∷ xs) (e, n) (inl (s, m)) =
      omega (arith, e, ap (number nums) s, Numbered-le (suc i) v xs n m)
  Numbered-Precedes i u v (x ∷ xs) (e, n) (inr p) = Numbered-Precedes (suc i) u v xs n p

  pub Numbered-apart :
      (i u v : ℕ) (xs : List BlockId)
      → Numbered nums i xs
      → Memᴰ u xs
      → Memᴰ v xs
      → number nums u ≡ number nums v
      → u ≡ v
  Numbered-apart i u v [] n mu mv same = absurd (Memᴰ.not-nil mu)
  Numbered-apart i u v (x ∷ xs) (e, n) mu mv same =
      let after = λ (y : ℕ) (m : Memᴰ y xs). Numbered-le (suc i) y xs n m in
      ⊎_elim
        (λ ux.
          ⊎_elim (λ vx. ux ∙ sym vx)
            (λ m. absurd (omega (arith, e, ap (number nums) ux, same, after v m)))
            (Memᴰ.cases_cons mv))
        (λ m.
          ⊎_elim (λ vx. absurd (omega (arith, e, ap (number nums) vx, same, after u m)))
            (λ m'. Numbered-apart (suc i) u v xs n m m' same) (Memᴰ.cases_cons mv))
        (Memᴰ.cases_cons mu)

  -- A numbered list of blocks that control reaches is in the order of a round.
  pub Numbered-IsTail :
      (succs : List (List BlockId)) (i : ℕ) (xs : List BlockId)
      → Numbered nums i xs
      → ((v : BlockId) → Memᴰ v xs → Walk succs v × (v ≢ 0))
      → ((x : BlockId) → Walk succs x → Memᴰ x xs ⊎ (number nums x < i))
      → IsTail succs nums i xs
  Numbered-IsTail succs i [] n inside all =
      λ x w. ⊎_elim (λ m. absurd (Memᴰ.not-nil m)) (λ lt. lt) (all x w)
  Numbered-IsTail succs i (b ∷ xs) (e, n) inside all =
      let (walk, other) = inside b (Memᴰ.head refl) in
      (
        e,
        walk,
        other,
        Numbered-IsTail succs (suc i) xs n (λ v m. inside v (Memᴰ.tail m))
            (λ x w.
              ⊎_elim
                (λ m.
                  ⊎_elim (λ s. inr (omega (arith, e, ap (number nums) s))) inl (Memᴰ.cases_cons m))
                (λ lt. inr (omega (arith, lt))) (all x w)),
      )
