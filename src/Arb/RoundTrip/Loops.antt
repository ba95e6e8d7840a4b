-- ===== src/Arb/RoundTrip/Loops.antt =====
-- A table that is written entry by entry is read back entry by entry.
use astronomy.Prelude.{
  ℕ, ◌+◌, ◌*◌, ◌%◌, ◌<◌, ◌≤◌, ◌^◌, ◌≡◌, ◌≢◌, refl, sym, ap, ◌∙◌, List, [], ◌∷◌, ◌++◌, none, some,
  length, get_elem?, get_elem?-append_length, get_elem?-append_left, get_elem?-lt, length-append,
  append_assoc, append-nil, arith, String, subst, Option-cases, inl, inr, ==_iff,
}
use mathlib.Core.Path.{ap₂}
use astronomy.Prelude.Eq.{PartialEq}
use astronomy.Ir.Interner.{Store, get, intern}
use astronomy.Ir.Interner.Laws.{IsInterned, intern-IsInterned, intern_fresh}
use astronomy.Arb.Writer.{Writer, ◌>>◌, each, each_entry, expect}
use astronomy.Arb.Cursor.{Reader, pure}
use astronomy.Arb.Codec.{RoundTrip, RoundTrip-bind, RoundTrip-skip, RoundTrip-weaken}
use astronomy.Arb.Decode.Tables.{table_from, expect_id}

module _ {A : Type 0} (write : A → Writer) where
  each_entry-from :
      (s : Store A) (done todo : List A)
      → s.entries ≡ done ++ todo
      → length s.entries ≤ 2 ^ 32
      → each_entry write s (length todo) (length done) ≡ each write todo
  unfolding each_entry each get
  each_entry-from s done [] e small = refl
  each_entry-from s done (x ∷ todo) e small =
      let here : length done < 2 ^ 32 = omega (arith, ap length e, length-append done (x ∷ todo)) in
      let found : get_elem? s.entries (length done % 2 ^ 32) ≡ some x =
        ap₂ get_elem? e (let m : length done % 2 ^ 32 ≡ length done = omega arith in m)
        ∙ get_elem?-append_length done todo x in
      let next : length done + 1 ≡ length (done ++ (x ∷ [])) =
        omega (arith, length-append done (x ∷ [])) in
      ap₂ (λ v w. v >> w) (ap (expect write) found)
        (ap (each_entry write s (length todo)) next
          ∙ each_entry-from s (done ++ (x ∷ [])) todo (e ∙ sym (append_assoc done (x ∷ []) todo))
              small)

  -- Indexing every entry of a table in turn is going through the list of entries.
  pub each_entry-eq-each :
      (s : Store A)
      → length s.entries ≤ 2 ^ 32
      → each_entry write s (length s.entries) 0 ≡ each write s.entries
  each_entry-eq-each s small = each_entry-from s [] s.entries refl small

-- Each entry may follow those before it.
abbrev pub Follows : {A : Type 0} → (List A → A → Type 0) → List A → List A → Type 0
Follows P done [] = Unit
Follows P done (x ∷ xs) = P done x × Follows P (done ++ (x ∷ [])) xs

module _ {A S : Type 0} (lo : ℕ) (write : A → Writer) (step : ℕ → S → Reader S)
    (Inv : List A → S → Type 0) (P : List A → A → Type 0)
    (one : (done : List A) (x : A) (t : S)
      → Inv done t
      → P done x
      → (t' : S) × Inv (done ++ (x ∷ [])) t'
        × RoundTrip lo (write x) (step (length done) t) t') where
  pub RoundTrip-table :
      (todo done : List A) (t : S)
      → Inv done t
      → Follows P done todo
      → (t' : S) × Inv (done ++ todo) t'
        × RoundTrip
            (length todo * lo)
            (each write todo)
            (table_from step (length todo) (length done) t)
            t'
  unfolding each table_from
  RoundTrip-table [] done t inv f = (
    t,
    subst (λ l. Inv l t) (sym (append-nil done)) inv,
    RoundTrip-weaken _ (RoundTrip-skip t) (omega arith),
  )
  RoundTrip-table (x ∷ todo) done t inv (p, f) =
      let (t', inv', first) = one done x t inv p in
      let (t'', inv'', rest) = RoundTrip-table todo (done ++ (x ∷ [])) t' inv' f in
      let next : length (done ++ (x ∷ [])) ≡ length done + 1 =
        omega (arith, length-append done (x ∷ [])) in
      (
        t'',
        subst (λ l. Inv l t'') (append_assoc done (x ∷ []) todo) inv'',
        RoundTrip-weaken _
            (RoundTrip-bind _ first (
              subst
                (λ k.
                  RoundTrip (length todo * lo) (each write todo)
                    (table_from step (length todo) k t') t'')
                next rest))
            (omega arith),
      )

-- The entry is not in the list.
abbrev pub IsNew : {A : Type 0} → List A → A → Type 0
IsNew done x = (i : ℕ) → get_elem? done i ≢ some x

module _ {A : Type 0} where
  pub lookup_new : (t : Store A) (x : A) → IsInterned t → IsNew t.entries x → t.lookup x ≡ none
  lookup_new t x inv new = elim (Option-cases (t.lookup x)) [
    | inl e ↦ e
    | inr (i, e) ↦ absurd (new i (inv.sound x i e))
  ]

module _ {A : Type 0} ⦃e : PartialEq A⦄ where
  -- Interning a new entry gives the id that the decoder expects.
  pub expect_id-intern :
      (at : ℕ) (table : String) (t : Store A) (x : A)
      → IsInterned t
      → IsNew t.entries x
      → length t.entries < 2 ^ 32
      → expect_id at (length t.entries) table (intern t x) ≡ pure (intern t x).0
  unfolding expect_id
  expect_id-intern at table t x inv new small =
      rw ((==_iff _ _).1 (intern_fresh t x (lookup_new t x inv new) small).1)

  intern_step_self :
      (t : Store A) (x : A)
      → IsInterned t
      → IsNew t.entries x
      → length t.entries < 2 ^ 32
      → IsInterned (intern t x).0 × ((intern t x).0.entries ≡ t.entries ++ (x ∷ []))
  intern_step_self t x inv new small =
      (intern-IsInterned t x small inv, (intern_fresh t x (lookup_new t x inv new) small).0)

  -- A round of a table's loop, where the entries before are `done`.
  pub expect_id_step :
      (at : ℕ) (table : String) (t : Store A) (done : List A) (x : A)
      → IsInterned t
      → t.entries ≡ done
      → IsNew done x
      → length done < 2 ^ 32
      → (expect_id at (length done) table (intern t x) ≡ pure (intern t x).0)
        × IsInterned (intern t x).0
        × ((intern t x).0.entries ≡ done ++ (x ∷ []))
  expect_id_step at table t done x inv e =
      subst
        (λ l.
          IsNew l x
          → length l < 2 ^ 32
          → (expect_id at (length l) table (intern t x) ≡ pure (intern t x).0)
            × IsInterned (intern t x).0
            × ((intern t x).0.entries ≡ l ++ (x ∷ [])))
        e
        (λ new small. (
          expect_id-intern at table t x inv new small,
          (intern_step_self t x inv new small).0,
          (intern_step_self t x inv new small).1,
        ))

-- What the entries of a valid table bring to the loop that reads them.
abbrev pub Entry : {A : Type 0} → (ℕ → A → Type 0) → List A → A → Type 0
Entry Q done x = IsNew done x × (length done < 2 ^ 32) × Q (length done) x

module _ {A : Type 0} (s : Store A) (Q : ℕ → A → Type 0) where
  not_yet_held :
      (done todo : List A) (x : A) → IsInterned s → s.entries ≡ done ++ (x ∷ todo) → IsNew done x
  not_yet_held done todo x inv e i p =
      let lt = get_elem?-lt done i p in
      let first : get_elem? s.entries i ≡ some x =
        ap (λ l. get_elem? l i) e ∙ get_elem?-append_left done (x ∷ todo) i lt ∙ p in
      let again : get_elem? s.entries (length done) ≡ some x =
        ap (λ l. get_elem? l (length done)) e ∙ get_elem?-append_length done todo x in
      let same : some i ≡ some (length done) =
        sym (inv.full x i first) ∙ inv.full x (length done) again in
      ground arith

  Follows-from :
      (done todo : List A)
      → IsInterned s
      → length s.entries < 2 ^ 32
      → ((i : ℕ) (x : A) → get_elem? s.entries i ≡ some x → Q i x)
      → s.entries ≡ done ++ todo
      → Follows (Entry Q) done todo
  Follows-from done [] inv small q e = tt
  Follows-from done (x ∷ todo) inv small q e = (
    (
      not_yet_held done todo x inv e,
      omega (arith, ap length e, length-append done (x ∷ todo)),
      q (length done) x
          (ap (λ l. get_elem? l (length done)) e ∙ get_elem?-append_length done todo x),
    ),
    Follows-from (done ++ (x ∷ [])) todo inv small q (e ∙ sym (append_assoc done (x ∷ []) todo)),
  )

  pub Follows-entries :
      IsInterned s
      → length s.entries < 2 ^ 32
      → ((i : ℕ) (x : A) → get_elem? s.entries i ≡ some x → Q i x)
      → Follows (Entry Q) [] s.entries
  Follows-entries inv small q = Follows-from [] s.entries inv small q refl
