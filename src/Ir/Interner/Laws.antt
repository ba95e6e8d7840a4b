-- ===== src/Ir/Interner/Laws.antt =====
-- What the interning tables promise.
use astronomy.Prelude.{
  ℕ, zero, suc, ◌+◌, ◌<◌, ◌≤◌, ◌^◌, ◌≡◌, refl, sym, ap, ◌∙◌, fun_ext, subst, ◌↔◌, ◌⊎◌, inl, inr,
  List, [], ◌∷◌, ◌++◌, none, some, arith, length, get_elem?, get_elem?-lt, get_elem?-append_left,
  get_elem?-append_length, length-append, Option-cases, Bool-cases,
}
use astronomy.Prelude.Eq.{PartialEq, ◌==◌, beq_refl}
use astronomy.Ir.Interner.{Store, new, get, push, intern}

-- The map holds exactly the entries, each under its position: no entry is stored twice.
pub record IsInterned {ℓ} {A : Type ℓ} (s : Store A) : Type ℓ where
  pub sound : (k : A) (i : ℕ) → s.lookup k ≡ some i → get_elem? s.entries i ≡ some k
  pub full : (k : A) (i : ℕ) → get_elem? s.entries i ≡ some k → s.lookup k ≡ some i

module _ {ℓ} {A : Type ℓ} where
  pub new-IsInterned : IsInterned (new {A = A})
  unfolding new
  new-IsInterned = record { sound = λ k i h. cc; full = λ k i h. cc }

  -- The position past the end of `xs ++ x ∷ []` holds nothing.
  pub get_elem?-concat :
      (xs : List A) (x : A) (i : ℕ) {k : A}
      → get_elem? (xs ++ (x ∷ [])) i ≡ some k
      → ((i < length xs) × (get_elem? xs i ≡ some k)) ⊎ ((i ≡ length xs) × (k ≡ x))
  get_elem?-concat [] x zero h = inr (refl, ground arith)
  get_elem?-concat [] x (suc i) h = cc
  get_elem?-concat (y ∷ xs) x zero h = inl (omega arith, h)
  get_elem?-concat (y ∷ xs) x (suc i) h = ground (arith, get_elem?-concat xs x i h)

  lookup_agree :
      (s t : Store A)
      → IsInterned s
      → IsInterned t
      → s.entries ≡ t.entries
      → (k : A) → s.lookup k ≡ t.lookup k
  lookup_agree s t hs ht e k = elim (Option-cases (s.lookup k)) [
    | inr (i, p) ↦ p ∙ sym (ht.full k i (ap (λ l. get_elem? l i) (sym e) ∙ hs.sound k i p))
    | inl p ↦ elim (Option-cases (t.lookup k)) [
      | inl q ↦ p ∙ sym q
      | inr (i, q) ↦ cc (hs.full k i (ap (λ l. get_elem? l i) e ∙ ht.sound k i q))
    ]
  ]

  -- A valid map is determined by the entries.
  pub Store_ext : (s t : Store A) → IsInterned s → IsInterned t → s.entries ≡ t.entries → s ≡ t
  Store_ext s t hs ht e =
      λ i. record { entries = e i; lookup = fun_ext (lookup_agree s t hs ht e) i }

module _ {ℓ} {A : Type ℓ} ⦃e : PartialEq A⦄ where
  lookup-push_lt :
      (s : Store A) (x k : A) (i : ℕ)
      → s.lookup x ≡ none
      → s.lookup k ≡ some i
      → (push s x).0.lookup k ≡ some i
  lookup-push_lt s x k i fresh p = ground (arith, e.same_iff x k)

  push-IsInterned :
      (s : Store A) (x : A)
      → length s.entries < 2 ^ 32
      → s.lookup x ≡ none
      → IsInterned s
      → IsInterned (push s x).0
  push-IsInterned s x room fresh h = record {
    sound = λ k i p. elim (Bool-cases (x == k)) [
      | inl same ↦ ground (arith, get_elem?-append_length s.entries [] x, e.same_iff x k)
      | inr other ↦
          let q : s.lookup k ≡ some i = rw other at p in
          get_elem?-append_left s.entries (x ∷ []) i (get_elem?-lt s.entries i (h.sound k i q))
          ∙ h.sound k i q
    ];
    full = λ k i p. elim (get_elem?-concat s.entries x i p) [
      | inl (lt, q) ↦ lookup-push_lt s x k i fresh (h.full k i q)
      | inr (at_end, same) ↦ ground (arith, e.same_iff x k)
    ];
  }

  -- Interning keeps a valid table of less than 2 ^ 32 entries valid.
  pub intern-IsInterned :
      (s : Store A) (x : A) → length s.entries < 2 ^ 32 → IsInterned s → IsInterned (intern s x).0
  unfolding intern
  intern-IsInterned s x room h = elim (Option-cases (s.lookup x)) [
    | inl fresh ↦ rw (fresh, intern) (push-IsInterned s x room fresh h)
    | inr (id, p) ↦ rw (p, intern) h
  ]

  -- In a valid table with room for another id, the id that `intern` returns looks up the entry.
  pub get-intern :
      (s : Store A) (x : A)
      → length s.entries < 2 ^ 32
      → IsInterned s
      → get (intern s x).0 (intern s x).1 ≡ some x
  unfolding intern get
  get-intern s x room h = elim (Option-cases (s.lookup x)) [
    | inl fresh ↦ ground (arith, get_elem?-append_length s.entries [] x)
    | inr (id, p) ↦ rw (p, intern) (h.sound x id p)
  ]

  -- An id that looks up an entry looks up the same entry after more is interned.
  pub get-intern_kept :
      (s : Store A) (x k : A) (id : ℕ) → get s id ≡ some k → get (intern s x).0 id ≡ some k
  unfolding intern get
  get-intern_kept s x k id p = elim (Option-cases (s.lookup x)) [
    | inl fresh ↦
        ground (arith, get_elem?-append_left s.entries (x ∷ []) id, get_elem?-lt s.entries id p)
    | inr (i, q) ↦ rw (q, intern) p
  ]

  -- What `intern` does on a new entry.
  pub intern_fresh :
      (s : Store A) (x : A)
      → s.lookup x ≡ none
      → length s.entries < 2 ^ 32
      → ((intern s x).0.entries ≡ s.entries ++ (x ∷ [])) × ((intern s x).1 ≡ length s.entries)
  unfolding intern
  intern_fresh s x fresh room = ground arith

  lookup-intern : (s : Store A) (x : A) → (intern s x).0.lookup x ≡ some (intern s x).1
  unfolding intern
  lookup-intern s x = ground (arith, beq_refl x)

  pub intern_found : (s : Store A) (x : A) (id : ℕ) → s.lookup x ≡ some id → intern s x ≡ (s, id)
  unfolding intern
  intern_found s x id p = rw (p, intern)

  -- Interning the same entry again returns the same id and changes nothing.
  pub intern-intern :
      (s : Store A) (x : A) → intern (intern s x).0 x ≡ ((intern s x).0, (intern s x).1)
  intern-intern s x = intern_found (intern s x).0 x (intern s x).1 (lookup-intern s x)

  pub length-intern : (s : Store A) (x : A) → length (intern s x).0.entries ≤ length s.entries + 1
  unfolding intern
  length-intern s x = ground (arith, length-append s.entries (x ∷ []))

  -- In a valid table with room for both, two entries interned one after the other get the same id exactly when they are equal.
  pub intern_eq_iff :
      (s : Store A) (x y : A)
      → length s.entries + 1 < 2 ^ 32
      → IsInterned s
      → ((intern s x).1 ≡ (intern (intern s x).0 y).1) ↔ (x ≡ y)
  intern_eq_iff s x y room h =
      let t = (intern s x).0 in
      let kept : get (intern t y).0 (intern s x).1 ≡ some x =
        get-intern_kept t y x (intern s x).1 (get-intern s x (omega arith) h) in
      let named : get (intern t y).0 (intern t y).1 ≡ some y =
        get-intern t y (omega (arith, length-intern s x)) (intern-IsInterned s x (omega arith) h) in
      (
        λ same. cc (kept, named, ap (get (intern t y).0) same),
        λ same. sym (
            ap (λ p. p.1) (subst (λ z. intern t z ≡ (t, (intern s x).1)) same (intern-intern s x))),
      )
