-- ===== src/Verify/Loops.antt =====
-- `for (i, x) in xs.iter().enumerate()`: over a state, and over a body that only reports.
use astronomy.Prelude.{
  ℕ, zero, suc, ◌+◌, ◌≡◌, refl, ap, ◌∙◌, subst, arith, List, [], ◌∷◌, ◌++◌, Option, none, some,
  get_elem?,
}
use mathlib.Core.Logic.{⊎_elim}
use mathlib.Core.List.{Memᴰ}
use mathlib.Core.List.Memᴰ
use mathlib.Core.Option.{bind, some-injective}

module _ {ℓ κ} {A : Type ℓ} {S : Type κ} where
  unfoldable pub each_from : (ℕ → A → S → S) → ℕ → List A → S → S
  each_from body i [] s = s
  each_from body i (x ∷ xs) s = each_from body (i + 1) xs (body i x s)

  -- The same loop where the index is not used.
  unfoldable pub each : (A → S → S) → List A → S → S
  each body [] s = s
  each body (x ∷ xs) s = each body xs (body x s)

module _ {ℓ κ} {A : Type ℓ} {E : Type κ} where
  unfoldable pub report_from : (ℕ → A → List E) → ℕ → List A → List E
  report_from body i [] = []
  report_from body i (x ∷ xs) = body i x ++ report_from body (i + 1) xs

module _ {ℓ κ} {A : Type ℓ} {E : Type κ} where
  -- A loop over a body that reports, or has too little fuel.
  unfoldable pub collect_from : (ℕ → A → Option (List E)) → ℕ → List A → Option (List E)
  collect_from body i [] = some []
  collect_from body i (x ∷ xs) =
      bind (body i x) (λ es. bind (collect_from body (i + 1) xs) (λ more. some (es ++ more)))

  -- The same loop where the index is not used.
  unfoldable pub collect : (A → Option (List E)) → List A → Option (List E)
  collect body xs = collect_from (λ i x. body x) 0 xs

module _ {ℓ} {A : Type ℓ} where
  -- Nothing is reported where neither half reports.
  pub append_nil-parts : (xs ys : List A) → xs ++ ys ≡ [] → (xs ≡ []) × (ys ≡ [])
  append_nil-parts [] ys h = (refl, h)
  append_nil-parts (x ∷ xs) ys h = cc

module _ {ℓ κ} {A : Type ℓ} {E : Type κ} where
  -- A loop that reports nothing has a body that reports nothing, at each entry.
  pub report_from-get :
      (body : ℕ → A → List E) (i : ℕ) (xs : List A)
      → report_from body i xs ≡ []
      → (j : ℕ) (x : A) → get_elem? xs j ≡ some x
      → body (i + j) x ≡ []
  unfolding report_from
  report_from-get body i [] h j x e = cc
  report_from-get body i (y ∷ xs) h zero x e =
      let here = (append_nil-parts (body i y) (report_from body (i + 1) xs) h).0 in
      subst (λ z. body (i + 0) z ≡ []) (some-injective _ _ e)
        (ap (λ k. body k y) (let k : i + 0 ≡ i = omega arith in k) ∙ here)
  report_from-get body i (y ∷ xs) h (suc j) x e =
      let later = (append_nil-parts (body i y) (report_from body (i + 1) xs) h).1 in
      subst (λ (k : ℕ). body k x ≡ []) (let k : i + 1 + j ≡ i + suc j = omega arith in k)
        (report_from-get body (i + 1) xs later j x e)

  pub report_from-nil :
      (body : ℕ → A → List E) (i : ℕ) (xs : List A)
      → ((j : ℕ) (x : A) → get_elem? xs j ≡ some x → body (i + j) x ≡ [])
      → report_from body i xs ≡ []
  unfolding report_from
  report_from-nil body i [] h = refl
  report_from-nil body i (y ∷ xs) h =
      let here : body i y ≡ [] =
        ap (λ k. body k y) (let k : i ≡ i + 0 = omega arith in k) ∙ h 0 y refl in
      rw here (
        report_from-nil body (i + 1) xs (λ j x e.
          ap (λ k. body k x) (let k : i + 1 + j ≡ i + suc j = omega arith in k) ∙ h (suc j) x e))

module _ {ℓ κ} {A : Type ℓ} {B : Type κ} where
  pub bind_parts :
      (o : Option A) (f : A → Option B) (b : B)
      → bind o f ≡ some b
      → (a : A) × (o ≡ some a) × (f a ≡ some b)
  unfolding bind
  bind_parts none f b h = cc
  bind_parts (some a) f b h = (a, refl, h)

module _ {ℓ κ} {A : Type ℓ} {E : Type κ} where
  -- A loop whose body has enough fuel has enough fuel.
  pub collect_from_total :
      (body : ℕ → A → Option (List E))
      → ((i : ℕ) (x : A) → (es : List E) × (body i x ≡ some es))
      → (i : ℕ) (xs : List A) → (es : List E) × (collect_from body i xs ≡ some es)
  unfolding collect_from bind
  collect_from_total body all i [] = ([], refl)
  collect_from_total body all i (x ∷ xs) =
      let (es, ran) = all i x in
      let (more, later) = collect_from_total body all (i + 1) xs in
      (es ++ more, rw (ran, bind, later) refl)

  collect_from-parts :
      (body : ℕ → A → Option (List E)) (i : ℕ) (x : A) (xs : List A)
      → collect_from body i (x ∷ xs) ≡ some []
      → (body i x ≡ some []) × (collect_from body (i + 1) xs ≡ some [])
  unfolding collect_from
  collect_from-parts body i x xs h =
      let (es, ran, rest) = bind_parts (body i x) _ [] h in
      let (more, later, joined) = bind_parts (collect_from body (i + 1) xs) _ [] rest in
      let (first, second) = append_nil-parts es more (some-injective _ _ joined) in
      (ran ∙ ap some first, later ∙ ap some second)

  -- A loop that reports nothing has a body that reports nothing, at each entry.
  pub collect_from-get :
      (body : ℕ → A → Option (List E)) (i : ℕ) (xs : List A)
      → collect_from body i xs ≡ some []
      → (j : ℕ) (x : A) → get_elem? xs j ≡ some x
      → body (i + j) x ≡ some []
  collect_from-get body i [] h j x e = cc
  collect_from-get body i (y ∷ xs) h zero x e =
      subst (λ z. body (i + 0) z ≡ some []) (some-injective _ _ e)
        (ap (λ k. body k y) (let k : i + 0 ≡ i = omega arith in k)
          ∙ (collect_from-parts body i y xs h).0)
  collect_from-get body i (y ∷ xs) h (suc j) x e =
      subst (λ (k : ℕ). body k x ≡ some []) (let k : i + 1 + j ≡ i + suc j = omega arith in k)
        (collect_from-get body (i + 1) xs (collect_from-parts body i y xs h).1 j x e)

  pub collect-Memᴰ :
      (body : A → Option (List E)) (xs : List A)
      → collect body xs ≡ some []
      → (x : A) → Memᴰ x xs
      → body x ≡ some []
  unfolding collect
  collect-Memᴰ body xs h x m = at 0 xs h m
    where
      at :
          (i : ℕ) (ys : List A)
          → collect_from (λ i y. body y) i ys ≡ some []
          → Memᴰ x ys
          → body x ≡ some []
      at i [] k n = absurd (Memᴰ.not-nil n)
      at i (y ∷ ys) k n =
          let (now, later) = collect_from-parts (λ i y. body y) i y ys k in
          ⊎_elim (λ e. ap body e ∙ now) (at (i + 1) ys later) (Memᴰ.cases_cons n)

module _ {ℓ κ} {A : Type ℓ} {S : Type κ} (R : S → S → Type κ) (R_refl : (s : S) → R s s)
    (R_trans : (s t u : S) → R s t → R t u → R s u) where
  -- A relation that the body respects relates the state before the loop to the state after it.
  pub each_from-keeps :
      (body : ℕ → A → S → S)
      → ((i : ℕ) (x : A) (s : S) → R s (body i x s))
      → (i : ℕ) (xs : List A) (s : S) → R s (each_from body i xs s)
  unfolding each_from
  each_from-keeps body step i [] s = R_refl s
  each_from-keeps body step i (x ∷ xs) s =
      R_trans s (body i x s) (each_from body (i + 1) xs (body i x s)) (step i x s)
        (each_from-keeps body step (i + 1) xs (body i x s))

  -- The state after the round for an entry is related to the state after the loop.
  pub each_from-at :
      (body : ℕ → A → S → S)
      → ((i : ℕ) (x : A) (s : S) → R s (body i x s))
      → (i : ℕ) (xs : List A) (s : S) (j : ℕ) (x : A) → get_elem? xs j ≡ some x
      → (t : S) × R (body (i + j) x t) (each_from body i xs s)
  unfolding each_from
  each_from-at body step i [] s j x e = cc
  each_from-at body step i (y ∷ xs) s zero x e =
      let later = each_from-keeps body step (i + 1) xs (body i y s) in
      (
        s,
        subst (λ z. R (body (i + 0) z s) (each_from body (i + 1) xs (body i y s)))
            (some-injective _ _ e)
            (subst (λ (k : ℕ). R (body k y s) (each_from body (i + 1) xs (body i y s)))
              (let k : i ≡ i + 0 = omega arith in k) later),
      )
  each_from-at body step i (y ∷ xs) s (suc j) x e =
      let (t, r) = each_from-at body step (i + 1) xs (body i y s) j x e in
      (
        t,
        subst (λ (k : ℕ). R (body k x t) (each_from body (i + 1) xs (body i y s)))
            (let k : i + 1 + j ≡ i + suc j = omega arith in k) r,
      )
