-- ===== src/Arb/RoundTrip/Versions.antt =====
-- Modules of another major version: `write` stores the version as it is, and `read` refuses it.
use astronomy.Prelude.{
  ℕ, ◌+◌, ◌<◌, ◌≤◌, ◌^◌, ◌≡◌, ◌≢◌, refl, ap, ◌∙◌, false, List, ◌++◌, none, some, length,
  length-append, append_assoc, arith, ◌==◌, Option-cases, inl, inr,
}
use astronomy.Ir.Modules.{Module, ArnVersion, supported_major}
use astronomy.Arb.Bytes.{IsU32, to_le_bytes}
use astronomy.Arb.Tags.Section
use astronomy.Arb.Errors.{err, unsupported_version}
use astronomy.Arb.Crc.{crc32}
use astronomy.Arb.Writer
use astronomy.Arb.Writer.{Writer, ◌>>◌}
use astronomy.Arb.Cursor.{Reader, pure, fail, ◌>>=◌, u32, offset, new}
use astronomy.Arb.Codec.{RoundTrip, RoundTrip-bind, drop_next}
use astronomy.Arb.Codec.Words.{RoundTrip-opt_u32, Reads-word}
use astronomy.Arb.Encodable.{IsEncodable}
use astronomy.Arb.Encode.{
  write, sections, module_section, symbol_section, type_section, constant_section, function_section,
}
use astronomy.Arb.Decode.{read, read_sections, read_module_section, supported, at_end}
use astronomy.Arb.RoundTrip.Functions.{opt_symbol-IsOptU32}
use astronomy.Arb.RoundTrip.Stores.{RoundTrip-symbols, RoundTrip-constants}
use astronomy.Arb.RoundTrip.TypeTable.{RoundTrip-types}
use astronomy.Arb.RoundTrip.Sections.{RoundTrip-section, in_section_cut, body_cursor}
use astronomy.Arb.RoundTrip.Patches.{section_appends}
use astronomy.Arb.RoundTrip.Frame.{header_bytes, read_framed, write_framed}
use astronomy.Arb.RoundTrip.Files.{RoundTrip-functions}

unsupported_lem :
    (at : ℕ) (v : ArnVersion)
    → v.major ≢ supported_major
    → supported at v ≡ fail (unsupported_version at v.major supported_major)
unfolding supported
unsupported_lem at v e = rw (let q : (v.major == 1) ≡ false = ground arith in q)

Refused : List ℕ → List ℕ → ArnVersion → Type 0
Refused tag bs v =
    (base : ℕ)
    → read_module_section (body_cursor tag bs base)
      ≡ err (unsupported_version (base + 0) v.major supported_major)

read_module_section-Refused :
    (tag C : List ℕ) (v : ArnVersion)
    → v.major ≢ supported_major
    → IsU32 v.major
    → IsU32 v.minor
    → Refused tag (to_le_bytes 4 v.major ++ (to_le_bytes 4 v.minor ++ C)) v
unfolding read_module_section ◌>>=◌ offset pure u32 fail Refused
read_module_section-Refused tag C v other major minor base =
    let A = to_le_bytes 4 v.major in
    let B = to_le_bytes 4 v.minor in
    let bs = A ++ (B ++ C) in
    let c = body_cursor tag bs base in
    let c1 = record c { pos = 0 + length A } in
    rw ((Reads-word 4 v.major "module version" (omega arith)).from c (B ++ C) refl) (
      rw
        ((Reads-word 4 v.minor "module version" (omega arith)).from c1 C
          (drop_next A (B ++ C) bs 0 refl))
        (rw (unsupported_lem (base + 0) v other)))

RoundTrip-then :
    {A B : Type 0} {l k : ℕ} {v w : Writer} {r : Reader A} {s : Reader B} {a : A} {b : B}
    → RoundTrip l v r a
    → RoundTrip k w s b
    → RoundTrip (l + k) (v >> w) (r >>= λ _. s) b
RoundTrip-then {s} p q = RoundTrip-bind (λ _. s) p q

module _ (m : Module) (h : IsEncodable m) (v : ArnVersion) (other : v.major ≢ supported_major)
    (major : IsU32 v.major) (minor : IsU32 v.minor) where
  tables : Writer
  tables = do
    Writer.section Section.symbols (symbol_section m)
    Writer.section Section.types (type_section m)
    Writer.section Section.constants (constant_section m)
    Writer.section Section.functions (function_section m)

  tables_append :
      (out out' : List ℕ)
      → tables out ≡ some out'
      → length out' < 2 ^ 64
      → (ys : List ℕ) × (out' ≡ out ++ ys)
  unfolding tables symbol_section type_section constant_section
  tables_append out out' e small =
      let (ys, eq, _, _) =
        (RoundTrip-then (RoundTrip-section _ refl (RoundTrip-symbols m.symbols h.symbols h.utf8)) (
            RoundTrip-then
              (RoundTrip-section _ refl (RoundTrip-types m.types h.types h.prefix h.well_founded))
              (RoundTrip-then
                (RoundTrip-section _ refl (RoundTrip-constants m.constants h.constants h.masked))
                (RoundTrip-section _ refl (RoundTrip-functions m h))))).run
          out out' e small in
      (ys, eq)

  module_section-Refused :
      (out out' : List ℕ)
      → module_section (record m { version = v }) out ≡ some out'
      → length out' < 2 ^ 64
      → (bs : List ℕ) × (out' ≡ out ++ bs) × Refused Section.module_tag bs v
  unfolding module_section ◌>>◌ Writer.u32 Writer.bytes
  module_section-Refused out out' e small =
      let A = to_le_bytes 4 v.major in
      let B = to_le_bytes 4 v.minor in
      let few : length m.symbols.entries ≤ 2 ^ 32 = let k = h.symbols.1 in omega arith in
      let fits = opt_symbol-IsOptU32 m.symbols few m.name h.name in
      let (C, eq, _, _) =
        (RoundTrip-opt_u32 m.name "module name" fits).run ((out ++ A) ++ B) out' e small in
      (
        A ++ (B ++ C),
        eq ∙ append_assoc (out ++ A) B C ∙ append_assoc out A (B ++ C),
        read_module_section-Refused Section.module_tag C v other major minor,
      )

  -- Where the module's section is refused, so is the file.
  sections-Refused :
      (bs S rest : List ℕ)
      → Refused Section.module_tag bs v
      → length bs < 2 ^ 64
      → S ≡ (Section.module_tag ++ (to_le_bytes 8 (length bs) ++ bs)) ++ rest
      → at_end (read_sections (new S 16)) ≡ err (unsupported_version 28 v.major supported_major)
  unfolding read_sections ◌>>=◌ Refused new to_le_bytes
  sections-Refused bs S rest refused small shape =
      rw (in_section_cut Section.module_tag read_module_section bs (new S 16) rest refl small shape)
        (rw (refused (16 + (0 + 4 + 8))))

  sections_split :
      (out out' : List ℕ)
      → sections (record m { version = v }) out ≡ some out'
      → length out' < 2 ^ 64
      → (bs rest : List ℕ) × (out'
          ≡ out ++ ((Section.module_tag ++ (to_le_bytes 8 (length bs) ++ bs)) ++ rest))
        × (length bs ≤ length out')
        × Refused Section.module_tag bs v
  unfolding sections ◌>>◌ tables symbol_section type_section constant_section function_section
  sections_split out out' e small =
      elim (Option-cases
        (Writer.section Section.module_tag (module_section (record m { version = v })) out)) [
          | inl n ↦ absurd (let q : none ≡ some out' = rw n at e in cc)
          | inr (mid, n) ↦
              let (ys, ey) = tables_append mid out' (rw n at e) small in
              let shorter : length mid ≤ length out' =
                omega (arith, ap length ey, length-append mid ys) in
              let (bs, eq, le, refused) =
                section_appends Section.module_tag _ out mid n
                  (λ bs. Refused Section.module_tag bs v)
                  (λ written body le. module_section-Refused _ written body (omega arith)) in
              let xs = Section.module_tag ++ (to_le_bytes 8 (length bs) ++ bs) in
              (bs, ys, ey ∙ ap (λ t. t ++ ys) eq ∙ append_assoc out xs ys, omega arith, refused)
        ]

-- A module that would be encodable but for its major version, a `u32` other than 1, is refused by
-- `read` at the version's offset once it is written, where the file is shorter than 2 ^ 64 bytes.
pub read-write_unsupported :
    (m : Module) (v : ArnVersion) (file : List ℕ)
    → IsEncodable m
    → v.major ≢ supported_major
    → IsU32 v.major
    → IsU32 v.minor
    → write (record m { version = v }) ≡ some file
    → length file < 2 ^ 64
    → read file ≡ err (unsupported_version 28 v.major supported_major)
read-write_unsupported m v file h other major minor e small =
    let (body, wrote, eq) = write_framed (record m { version = v }) file e in
    let shorter : length body ≤ length file =
      omega (arith, ap length eq, length-append body (to_le_bytes 4 (crc32 body))) in
    let (bs, rest, shape, le, refused) =
      sections_split m h v other major minor header_bytes body wrote (omega arith) in
    let S = (Section.module_tag ++ (to_le_bytes 8 (length bs) ++ bs)) ++ rest in
    ap read (eq ∙ ap (λ t. t ++ to_le_bytes 4 (crc32 t)) shape)
    ∙ read_framed S
    ∙ sections-Refused m h v other major minor bs S rest refused (omega arith) refl
