-- ===== src/Arb/RoundTrip/Frame.antt =====
-- The frame of a `.arb` file: its header in front of the sections, and its checksum behind them.
use astronomy.Prelude.{
  ℕ, ◌+◌, ◌-◌, ◌<◌, ◌≤◌, ◌^◌, ◌≡◌, refl, sym, ap, ◌∙◌, true, List, [], ◌++◌, none, some, length,
  drop, length-append, take-append_self, drop-append_self, append_assoc, arith, subst, Option-cases,
  inl, inr, ltb-false, ==_iff,
}
use mathlib.Core.Option.{some-injective}
use astronomy.Ir.Modules.{Module}
use astronomy.Arb.Bytes.{to_le_bytes, length-to_le_bytes, from_le_bytes-to_le_bytes}
use astronomy.Arb.Tags.{magic, format_major, format_minor}
use astronomy.Arb.Errors.{ok}
use astronomy.Arb.Crc.{crc32}
use astronomy.Arb.Writer
use astronomy.Arb.Writer.{Writer, ◌>>◌, and_then}
use astronomy.Arb.Cursor.{Cursor, new}
use astronomy.Arb.Codec.{
  RoundTrip, Reads, RoundTrip-bind, RoundTrip-tag, RoundTrip-known, RoundTrip-offset,
}
use astronomy.Arb.Codec.Words.{RoundTrip-u16, RoundTrip-u32, RoundTrip-bytes, Reads-take}
use astronomy.Arb.Encode.{write, header, sections}
use astronomy.Arb.Decode.{
  read, read_header, read_body, read_sections, format_supported, flags_clear, is_arb, starts_with,
  after_header, at_end,
}

RoundTrip-header : RoundTrip 16 header read_header tt
unfolding header read_header format_supported flags_clear
RoundTrip-header = RoundTrip-bind _ (RoundTrip-bytes magic _ _ (Reads-take magic 8 "magic" refl)) (
    RoundTrip-bind _ (RoundTrip-u16 _ _ (omega arith)) (
      RoundTrip-bind _ (RoundTrip-u16 _ _ (omega arith)) (
        RoundTrip-known _ refl
          (RoundTrip-offset λ n. RoundTrip-tag _ (RoundTrip-u32 _ _ (omega arith)) refl))))

-- What `header` appends to an empty buffer.
pub header_bytes : List ℕ
header_bytes =
    magic ++ (to_le_bytes 2 format_major ++ (to_le_bytes 2 format_minor ++ to_le_bytes 4 0))

header_written : header [] ≡ some header_bytes
unfolding header header_bytes ◌>>◌ Writer.bytes Writer.u16 Writer.u32 to_le_bytes
header_written = refl

header_starts : (rest : List ℕ) → is_arb (header_bytes ++ rest) ≡ true
unfolding is_arb starts_with header_bytes
header_starts rest = refl

pub length-header_bytes : length header_bytes ≡ 16
unfolding header_bytes to_le_bytes
length-header_bytes = refl

Reads-header : Reads read_header header_bytes tt
Reads-header =
    let (bs, eq, _, reads) =
      RoundTrip-header.run [] header_bytes header_written (rw length-header_bytes (omega arith)) in
    subst (λ t. Reads read_header t tt) (sym eq) reads

crc32_fits : (bytes : List ℕ) → crc32 bytes < 2 ^ 32
unfolding crc32
crc32_fits bytes = omega arith

after_header_lem :
    (body : List ℕ) (stored : ℕ) (c : Cursor)
    → stored < 2 ^ 32
    → 16 ≤ length body
    → after_header (body ++ to_le_bytes 4 stored) (ok (tt, c)) ≡ read_body body stored
after_header_lem body stored c small long =
    let foot = to_le_bytes 4 stored in
    let size : length (body ++ foot) ≡ length body + 4 =
      omega (arith, length-append body foot, length-to_le_bytes 4 stored) in
    let cut : length (body ++ foot) - 4 ≡ length body = omega arith in
    rw (ltb-false (length (body ++ foot)) 20 (omega arith)) (
      rw cut (
        rw (
          take-append_self body foot,
          drop-append_self body foot,
          from_le_bytes-to_le_bytes 4 stored (omega arith),
        )))

-- A header, the bytes `S` and the checksum of both: what `read` returns is what the sections' reader makes of `S`.
pub read_framed :
    (S : List ℕ)
    → read ((header_bytes ++ S) ++ to_le_bytes 4 (crc32 (header_bytes ++ S)))
      ≡ at_end (read_sections (new S 16))
unfolding read new read_body
read_framed S =
    let body = header_bytes ++ S in
    let foot = to_le_bytes 4 (crc32 body) in
    let file = body ++ foot in
    let c = record (new file 0) { pos = 0 + length header_bytes } in
    let whole : file ≡ header_bytes ++ (S ++ foot) = append_assoc header_bytes S foot in
    rw (ap is_arb whole ∙ header_starts (S ++ foot)) (
      rw (Reads-header.from (new file 0) (S ++ foot) whole) (
        after_header_lem body (crc32 body) c (crc32_fits body)
          (omega (arith, length-append header_bytes S, length-header_bytes))
        ∙ rw ((==_iff (crc32 body) (crc32 body)).1 refl) (
            ap (λ t. at_end (read_sections (new t 16)))
              (sym (ap (λ n. drop n body) length-header_bytes) ∙ drop-append_self header_bytes S))))

-- What `write` makes of a module: the header, what its sections append, and the checksum.
pub write_framed :
    (m : Module) (file : List ℕ)
    → write m ≡ some file
    → (body : List ℕ) × (sections m header_bytes ≡ some body)
      × (file ≡ body ++ to_le_bytes 4 (crc32 body))
unfolding write Writer.u32 Writer.bytes ◌>>◌
write_framed m file e = elim (Option-cases (sections m header_bytes)) [
  | inl n ↦ absurd (let q : none ≡ some file = rw (header_written, n) at e in cc)
  | inr (body, s) ↦ (
    body,
    s,
    let q : some (body ++ to_le_bytes 4 (crc32 body)) ≡ some file = rw (header_written, s) at e in
        sym (some-injective _ _ q),
  )
]
