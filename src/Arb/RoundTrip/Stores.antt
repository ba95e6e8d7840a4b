-- ===== src/Arb/RoundTrip/Stores.antt =====
-- The symbol table, the type table and the constant pool, read back as they were written.
use astronomy.Prelude.{
  ◌≡◌, refl, true, List, [], ◌∷◌, ◌++◌, length, All, All-get_elem?, arith, subst,
}
use astronomy.Prelude.Eq.{nat_eq, list_eq}
use astronomy.Ir.Interner.{Store, intern, new}
use astronomy.Ir.Interner.Laws.{IsInterned, Store_ext, new-IsInterned}
use astronomy.Ir.Types.{type_eq}
use astronomy.Ir.Constants.{
  ConstantData, ConstantStore, constant_eq, intern_constant, new_constants,
}
use astronomy.Ir.Modules.{Name, SymbolStore, intern_symbol, new_symbols}
use astronomy.Arb.Writer
use astronomy.Arb.Writer.{◌>>◌, each, each_entry}
use astronomy.Arb.Codec.{RoundTrip, RoundTrip-tag, RoundTrip-offset, RoundTrip-weaken}
use astronomy.Arb.Codec.Lists.{RoundTrip-blob, RoundTrip-count}
use astronomy.Arb.Encodable.{IsConstant, IsTable}
use astronomy.Arb.Encode.Tables as Encode
use astronomy.Arb.Decode.Utf8.{is_utf8}
use astronomy.Arb.Decode.Tables.{read_symbol, read_symbols, read_constant_entry, read_constants}
use astronomy.Arb.RoundTrip.Tables.{RoundTrip-constant}
use astronomy.Arb.RoundTrip.Loops.{
  RoundTrip-table, each_entry-eq-each, Entry, Follows-entries, expect_id_step,
}

-- The decoder's table holds the entries that were read.
abbrev pub Holds : {A : Type 0} → List A → Store A → Type 0
Holds done t = IsInterned t × (t.entries ≡ done)

-- Two valid tables with the same entries are the same.
pub Holds-eq : {A : Type 0} (s t : Store A) → IsInterned s → Holds s.entries t → t ≡ s
Holds-eq s t inv (inv', e) = Store_ext t s inv' inv e

pub Holds-new : {A : Type 0} → Holds {A = A} [] new
unfolding new
Holds-new = (new-IsInterned, refl)

symbol_step :
    (done : List Name) (x : Name) (t : SymbolStore)
    → Holds done t
    → Entry (λ i name. is_utf8 name ≡ true) done x
    → (t' : SymbolStore) × Holds (done ++ (x ∷ [])) t'
      × RoundTrip 4 (Writer.blob x) (read_symbol (length done) t) t'
unfolding read_symbol intern_symbol
symbol_step done x t (inv, e) (fresh, small, utf8) =
    let (_, inv', e') = expect_id_step 0 "symbol" t done x inv e fresh small in
    (
      (intern t x).0,
      (inv', e'),
      RoundTrip-offset λ at.
          RoundTrip-tag _ (RoundTrip-blob x _)
            (rw utf8 (expect_id_step at "symbol" t done x inv e fresh small).0),
    )

-- The symbol section's body.
pub RoundTrip-symbols :
    (s : SymbolStore)
    → IsTable s
    → All (λ name. is_utf8 name ≡ true) s.entries
    → RoundTrip 4
        (Writer.len (length s.entries) >> each_entry Writer.blob s (length s.entries) 0)
        read_symbols
        s
unfolding read_symbols new_symbols
RoundTrip-symbols s (inv, small) utf8 =
    let (t, held, trip) =
      RoundTrip-table 4 Writer.blob read_symbol Holds (Entry (λ i name. is_utf8 name ≡ true))
        symbol_step s.entries [] new Holds-new
        (Follows-entries s _ inv small (λ i x. All-get_elem? _ s.entries utf8 i x)) in
    rw (each_entry-eq-each Writer.blob s (omega arith)) (
      subst (RoundTrip 4 _ read_symbols) (Holds-eq s t inv held)
        (RoundTrip-weaken 4 (RoundTrip-count 4 _ _ (omega arith) trip) (omega arith)))

constant_step :
    (done : List ConstantData) (x : ConstantData) (t : ConstantStore)
    → Holds done t
    → Entry (λ i c. IsConstant c) done x
    → (t' : ConstantStore) × Holds (done ++ (x ∷ [])) t'
      × RoundTrip 5 (Encode.constant x) (read_constant_entry (length done) t) t'
unfolding read_constant_entry intern_constant
constant_step done x t (inv, e) (fresh, small, masked) =
    let (_, inv', e') = expect_id_step 0 "constant" t done x inv e fresh small in
    (
      (intern t x).0,
      (inv', e'),
      RoundTrip-offset λ at.
          RoundTrip-tag _ (RoundTrip-constant (length done) x masked)
            (expect_id_step at "constant" t done x inv e fresh small).0,
    )

-- A valid constant pool of less than 2 ^ 32 well-formed entries is read back as the same pool from what `write` appends for it.
pub RoundTrip-constants :
    (s : ConstantStore)
    → IsTable s
    → All IsConstant s.entries
    → RoundTrip 4
        (Writer.len (length s.entries) >> each_entry Encode.constant s (length s.entries) 0)
        read_constants
        s
unfolding read_constants new_constants
RoundTrip-constants s (inv, small) masked =
    let (t, held, trip) =
      RoundTrip-table 5 Encode.constant read_constant_entry Holds (Entry (λ i c. IsConstant c))
        constant_step s.entries [] new Holds-new
        (Follows-entries s _ inv small (λ i x. All-get_elem? _ s.entries masked i x)) in
    rw (each_entry-eq-each Encode.constant s (omega arith)) (
      subst (RoundTrip 4 _ read_constants) (Holds-eq s t inv held)
        (RoundTrip-weaken 4 (RoundTrip-count 5 _ _ (omega arith) trip) (omega arith)))
