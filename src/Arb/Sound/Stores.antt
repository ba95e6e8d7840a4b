-- ===== src/Arb/Sound/Stores.antt =====
-- The symbol table and the constant pool of an accepted file (`read_symbols` and `read_constants`, src/binary/reader.rs).
use astronomy.Prelude.{
  ℕ, ◌+◌, ◌%◌, ◌^◌, ◌<◌, ◌≡◌, sym, ap, ◌∙◌, none, some, length, arith, ltb, ltb→lt, [], ◌∷◌, Option,
  Option-cases, inl, inr, length-append, get_elem?-lt,
}
use astronomy.Prelude.Eq.{PartialEq, nat_eq, list_eq}
use astronomy.Ir.Interner.{Store, intern, new}
use astronomy.Ir.Interner.Laws.{
  IsInterned, new-IsInterned, intern-IsInterned, intern_found, intern_fresh,
}
use astronomy.Ir.Constants.{constant_eq, intern_constant, new_constants}
use astronomy.Ir.Modules.{SymbolStore, intern_symbol, new_symbols}
use astronomy.Arb.Decode.Utf8.{is_utf8}
use astronomy.Arb.Decode.Tables.{read_symbol, read_symbols, read_constant_entry, read_constants}
use astronomy.Arb.Decode.Functions.{check_symbol, check_opt_symbol}
use astronomy.Arb.Encodable.{IsOptSymbol}
use astronomy.Arb.Sound.{
  Ensures, Ensures-pure, Ensures-fail, Ensures-if, Ensures-any, Ensures-bind, Ensures-weaken,
}
use astronomy.Arb.Sound.Types.{Ensures-expect_id, Ensures-table_from}

-- A valid table of `i` entries.
record IsFilled {A : Type 0} (i : ℕ) (s : Store A) : Type 0 where
  interned : IsInterned s
  size : length s.entries ≡ i

-- An entry that gets the id of its place is a new one.
intern-IsFilled :
    {A : Type 0} ⦃e : PartialEq A⦄ (i : ℕ) (s : Store A) (x : A)
    → IsFilled i s
    → (intern s x).1 ≡ i
    → IsFilled (i + 1) (intern s x).0
unfolding intern
intern-IsFilled i s x h e = elim (Option-cases (s.lookup x)) [
  | inr (id, p) ↦
      let at : id ≡ i = sym (ap (λ q. q.1) (intern_found s x id p)) ∙ e in
      absurd (omega (arith, get_elem?-lt s.entries id (h.interned.sound x id p), h.size))
  | inl fresh ↦
      let at : length s.entries % 2 ^ 32 ≡ i = rw (fresh, intern) at e in
      let room : length s.entries < 2 ^ 32 = omega (arith, h.size) in
      let (grown, _) = intern_fresh s x fresh room in
      record {
        interned = intern-IsInterned s x room h.interned;
        size = omega (arith, ap length grown, length-append s.entries (x ∷ []), h.size);
      }
]

pub Ensures-symbols : Ensures IsInterned read_symbols
unfolding read_symbols read_symbol intern_symbol new_symbols new
Ensures-symbols = Ensures-any _ λ n.
    Ensures-weaken IsInterned
      (Ensures-table_from IsFilled read_symbol
        (λ i s h. Ensures-any _ λ at. Ensures-any _ λ raw.
          Ensures-if (is_utf8 raw)
            (λ _.
              Ensures-expect_id (IsFilled (i + 1)) at i "symbol" (intern s raw)
                (intern-IsFilled i s raw h))
            (λ _. Ensures-fail _))
        n 0 new (record { interned = new-IsInterned; size = omega arith }))
      (λ s h. h.interned)

pub Ensures-constants : Ensures IsInterned read_constants
unfolding read_constants read_constant_entry intern_constant new_constants new
Ensures-constants = Ensures-any _ λ n.
    Ensures-weaken IsInterned
      (Ensures-table_from IsFilled read_constant_entry
        (λ i s h. Ensures-any _ λ at. Ensures-any _ λ c.
          Ensures-expect_id (IsFilled (i + 1)) at i "constant" (intern s c)
            (intern-IsFilled i s c h))
        n 0 new (record { interned = new-IsInterned; size = omega arith }))
      (λ s h. h.interned)

-- A symbol id that passes the check names an entry.
pub Ensures-IsOptSymbol :
    (id : Option ℕ) (symbols : SymbolStore) (at : ℕ)
    → Ensures (IsOptSymbol (length symbols.entries)) (check_opt_symbol id symbols at)
unfolding check_opt_symbol check_symbol
Ensures-IsOptSymbol none symbols at = Ensures-pure none tt
Ensures-IsOptSymbol (some id) symbols at =
    Ensures-bind (λ i. i < length symbols.entries)
      (Ensures-if (ltb id (length symbols.entries)) (λ h. Ensures-pure id (ltb→lt _ _ h))
        (λ _. Ensures-fail _))
      λ i h. Ensures-pure (some i) h
