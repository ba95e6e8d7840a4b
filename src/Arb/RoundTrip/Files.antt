-- ===== src/Arb/RoundTrip/Files.antt =====
-- A whole `.arb` file: header, sections, checksum.
use astronomy.Prelude.{
  ℕ, ◌+◌, ◌-◌, ◌<◌, ◌≤◌, ◌^◌, ◌≡◌, refl, sym, ap, ◌∙◌, List, [], ◌++◌, some, length, drop,
  length-append, append_assoc, append-nil, arith, ==_iff,
}
use native.Mathlib.Nat.{le_of_lt}
use astronomy.Ir.Modules.{Module, ArnVersion, supported_major}
use astronomy.Arb.Bytes.{to_le_bytes}
use astronomy.Arb.Tags.Section
use astronomy.Arb.Errors.{ok}
use astronomy.Arb.Crc.{crc32}
use astronomy.Arb.Writer
use astronomy.Arb.Writer.{Writer, ◌>>◌, and_then}
use astronomy.Arb.Cursor.{
  Cursor, pure, ◌>>=◌, opt_u32, list_of, u32, offset, new, is_empty, remaining,
}
use astronomy.Arb.Codec.{
  RoundTrip, Reads, drop_next, RoundTrip-bind, RoundTrip-map, RoundTrip-known,
}
use astronomy.Arb.Codec.Words.{RoundTrip-opt_u32, Reads-word}
use astronomy.Arb.Codec.Lists.{RoundTrip-list}
use astronomy.Arb.Encodable.{IsEncodable, IsFunction, strip_function, strip_spans}
use astronomy.Arb.Encode.{
  write, sections, module_section, symbol_section, type_section, constant_section, function_section,
}
use astronomy.Arb.Encode.Functions as Encode
use astronomy.Arb.Decode.{
  ModuleSection, read, read_sections, read_module_section, supported, at_end,
}
use astronomy.Arb.Decode.Functions as Decode
use astronomy.Arb.RoundTrip.Functions.{
  RoundTrip-function, check_opt_symbol-eq-pure, opt_symbol-IsOptU32,
}
use astronomy.Arb.RoundTrip.Stores.{RoundTrip-symbols, RoundTrip-constants}
use astronomy.Arb.RoundTrip.TypeTable.{RoundTrip-types}
use astronomy.Arb.RoundTrip.Frame.{header_bytes, read_framed, write_framed}
use astronomy.Arb.RoundTrip.Sections.{
  RoundTrip-section, RoundTrip-section_then, Consumes, body_cursor,
}

supported_lem : (at : ℕ) (v : ArnVersion) → v.major ≡ supported_major → supported at v ≡ pure v
unfolding supported
supported_lem at v e = rw ((==_iff v.major supported_major).1 e)

name_offset : ArnVersion → ℕ
name_offset v = 0 + length (to_le_bytes 4 v.major) + length (to_le_bytes 4 v.minor)

module _ (m : Module) (h : IsEncodable m) where
  small_symbols : length m.symbols.entries ≤ 2 ^ 32
  small_symbols = le_of_lt h.symbols.1

  module_fields : ℕ → ModuleSection
  module_fields base = record {
    version = m.version;
    name_at = base + name_offset m.version;
    name_id = m.name;
  }

  read_module_section_lem :
      (tag C : List ℕ)
      → Reads (opt_u32 "module name") C m.name
      → Consumes tag read_module_section
          (to_le_bytes 4 m.version.major ++ (to_le_bytes 4 m.version.minor ++ C))
          module_fields
  unfolding read_module_section ◌>>=◌ offset pure u32 name_offset module_fields
  read_module_section_lem tag C reads base =
      let A = to_le_bytes 4 m.version.major in
      let B = to_le_bytes 4 m.version.minor in
      let bs = A ++ (B ++ C) in
      let c = body_cursor tag bs base in
      let c1 = record c { pos = 0 + length A } in
      let h1 : drop c1.pos bs ≡ B ++ C = drop_next A (B ++ C) bs 0 refl in
      let c2 = record c1 { pos = c1.pos + length B } in
      let h2 : drop c2.pos bs ≡ C ++ [] = drop_next B C bs c1.pos h1 ∙ sym (append-nil C) in
      let major_fits : m.version.major < 256 ^ 4 = rw h.major (omega arith) in
      rw ((Reads-word 4 m.version.major "module version" major_fits).from c (B ++ C) refl) (
        rw
          ((Reads-word 4 m.version.minor "module version" (let k = h.minor in omega arith)).from c1
            C h1)
          (rw (supported_lem (base + 0) m.version h.major) (
            rw (reads.from c2 [] h2) (
              ap (λ (k : ℕ). ok (module_fields base, record c { pos = k }))
                (omega (arith, length-append A (B ++ C), length-append B C))))))

  pub RoundTrip-functions :
      RoundTrip 4
        (function_section m)
        (list_of 23 "functions" (Decode.read_function m.symbols))
        (strip_spans m).functions
  unfolding function_section strip_spans
  RoundTrip-functions =
      RoundTrip-list (IsFunction _) 23 Encode.function (Decode.read_function m.symbols)
        strip_function _ (RoundTrip-function m.symbols small_symbols) m.functions h.functions

  module_section_written :
      (out out' : List ℕ)
      → module_section m out ≡ some out'
      → length out' < 2 ^ 64
      → (bs : List ℕ) × (out' ≡ out ++ bs)
        × Consumes Section.module_tag read_module_section bs module_fields
  unfolding module_section ◌>>◌ Writer.u32 Writer.bytes
  module_section_written out out' e small =
      let A = to_le_bytes 4 m.version.major in
      let B = to_le_bytes 4 m.version.minor in
      let fits = opt_symbol-IsOptU32 m.symbols small_symbols m.name h.name in
      let (C, eq, _, reads) =
        (RoundTrip-opt_u32 m.name "module name" fits).run ((out ++ A) ++ B) out' e small in
      (
        A ++ (B ++ C),
        eq ∙ append_assoc (out ++ A) B C ∙ append_assoc out A (B ++ C),
        read_module_section_lem Section.module_tag C reads,
      )

  -- The sections, in the file's order, give the module back.
  RoundTrip-sections : RoundTrip 0 (sections m) read_sections (strip_spans m)
  unfolding sections read_sections symbol_section type_section constant_section strip_spans
      module_fields
  RoundTrip-sections =
      RoundTrip-section_then read_module_section _ Section.module_tag module_fields refl
        module_section_written
        (λ at.
          RoundTrip-bind _ (RoundTrip-section _ refl (RoundTrip-symbols m.symbols h.symbols h.utf8))
            (RoundTrip-known _ (check_opt_symbol-eq-pure m.symbols small_symbols m.name _ h.name) (
              RoundTrip-bind _
                (RoundTrip-section _ refl (RoundTrip-types m.types h.types h.prefix h.well_founded))
                (RoundTrip-bind _
                  (RoundTrip-section _ refl (RoundTrip-constants m.constants h.constants h.masked))
                  (RoundTrip-map _ (RoundTrip-section _ refl RoundTrip-functions))))))

at_end_used : (m : Module) (c : Cursor) → remaining c ≡ 0 → at_end (ok (m, c)) ≡ ok m
unfolding is_empty
at_end_used m c e = rw ((==_iff _ _).1 e)

-- Reading what `write` made of an encodable module gives the module back, less its source spans, where the file fits the address space.
pub read-write :
    (m : Module) (file : List ℕ)
    → IsEncodable m
    → write m ≡ some file
    → length file < 2 ^ 64
    → read file ≡ ok (strip_spans m)
unfolding new remaining
read-write m file h e small =
    let (body, wrote, eq) = write_framed m file e in
    let foot = to_le_bytes 4 (crc32 body) in
    let shorter : length body ≤ length file =
      omega (arith, ap length eq, length-append body foot) in
    let (S, shape, _, reads) = (RoundTrip-sections m h).run header_bytes body wrote (omega arith) in
    let whole : file ≡ (header_bytes ++ S) ++ to_le_bytes 4 (crc32 (header_bytes ++ S)) =
      eq ∙ ap (λ t. t ++ to_le_bytes 4 (crc32 t)) shape in
    let c' = record (new S 16) { pos = 0 + length S } in
    ap read whole
    ∙ read_framed S
    ∙ ap at_end (reads.from (new S 16) [] (sym (append-nil S)))
    ∙ at_end_used (strip_spans m) c' (let z : length S - (0 + length S) ≡ 0 = omega arith in z)
