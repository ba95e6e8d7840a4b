-- ===== src/Arb/Sound/Files.antt =====
-- What a module that `read` (src/binary/reader.rs) accepts satisfies.
use astronomy.Prelude.{
  if◌then◌else◌, true, false, subst, ◌-◌, ℕ, ◌≡◌, Bool, List, ◌==◌, ==_iff, ltb, length, take, drop,
}
use astronomy.Ir.Modules.{Module, ArnVersion, supported_major}
use astronomy.Arb.Errors.{Result, ok, err, bad_magic}
use astronomy.Arb.Crc.{crc32}
use astronomy.Arb.Bytes.{from_le_bytes}
use astronomy.Arb.Cursor.{Cursor, is_empty, new}
use astronomy.Arb.Decode.{
  supported, read_module_section, read_sections, is_arb, at_end, read_body, after_header,
  read_header, read,
}
use astronomy.Arb.Sound.{
  Holds, Ensures, Ensures-pure, Ensures-fail, Ensures-if, Ensures-bind, Ensures-any,
  Ensures-in_section,
}
use astronomy.Ir.Interner.Laws.{IsInterned}
use astronomy.Arb.Encodable.{IsOptSymbol}
use astronomy.Arb.Sound.Stores.{Ensures-symbols, Ensures-constants, Ensures-IsOptSymbol}
use astronomy.Arb.Sound.Types.{IsAcyclic, Ensures-types}

-- The supported major version, tables that hold no entry twice, a name that is in the symbol table, and an acyclic type table.
pub record IsAccepted (m : Module) : Type 0 where
  pub major : m.version.major ≡ supported_major
  pub symbols : IsInterned m.symbols
  pub name : IsOptSymbol (length m.symbols.entries) m.name
  pub types : IsAcyclic m.types
  pub constants : IsInterned m.constants

Ensures-module_section : Ensures (λ s. s.version.major ≡ supported_major) read_module_section
unfolding read_module_section supported
Ensures-module_section = Ensures-any _ λ at. Ensures-any _ λ major. Ensures-any _ λ minor.
    Ensures-bind (λ (v : ArnVersion). v.major ≡ supported_major)
      (Ensures-if (major == supported_major)
        (λ e. Ensures-pure _ ((==_iff major supported_major).0 e)) (λ _. Ensures-fail _))
      λ v h. Ensures-any _ λ name_at. Ensures-any _ λ id. Ensures-pure _ h

Ensures-sections : Ensures IsAccepted read_sections
unfolding read_sections
Ensures-sections = Ensures-bind _ (Ensures-in_section _ Ensures-module_section) λ s major.
    Ensures-bind _ (Ensures-in_section _ Ensures-symbols) λ symbols hs.
      Ensures-bind _ (Ensures-IsOptSymbol s.name_id symbols s.name_at) λ name hn.
        Ensures-bind _ (Ensures-in_section _ Ensures-types) λ types ht.
          Ensures-bind _ (Ensures-in_section _ Ensures-constants) λ constants hc.
            Ensures-any _ λ functions.
              Ensures-pure _
                (record { major = major; symbols = hs; name = hn; types = ht; constants = hc })

abbrev Accepts : Result Module → Type 0
Accepts (ok m) = IsAccepted m
Accepts (err e) = Unit {0}

Accepts-if : (b : Bool) (r t : Result Module) → Accepts r → Accepts t → Accepts (if b then r else t)
Accepts-if true r t hr ht = hr
Accepts-if false r t hr ht = ht

at_end-Accepts : (t : Result (Module × Cursor)) → Holds IsAccepted t → Accepts (at_end t)
at_end-Accepts (err e) h = tt
at_end-Accepts (ok (m, file)) h = Accepts-if (is_empty file) (ok m) _ h tt

after_header-Accepts :
    (file : List ℕ) (t : Result (Unit {0} × Cursor)) → Accepts (after_header file t)
unfolding read_body
after_header-Accepts file (err e) = tt
after_header-Accepts file (ok c) =
    let cut = length file - 4 in
    let body = take cut file in
    let stored = from_le_bytes (drop cut file) in
    Accepts-if (ltb (length file) 20) _ (read_body body stored) tt (
      Accepts-if (stored == crc32 body) _ _
        (at_end-Accepts _ (Ensures-sections.on (new (drop 16 body) 16))) tt)

-- Whatever bytes `read` is given, a module that it returns has the supported major version, tables of symbols, types and constants that hold no entry twice, a name that is in the symbol table, and a type table that has the scalar types in front and in which every type has a valid width and refers only to types before it.
pub read-IsAccepted : (file : List ℕ) (m : Module) → read file ≡ ok m → IsAccepted m
unfolding read
read-IsAccepted file m h = subst Accepts h (
    Accepts-if (is_arb file) _ (err bad_magic)
      (after_header-Accepts file (read_header (new file 0))) tt)
