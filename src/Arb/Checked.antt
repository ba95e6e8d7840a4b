-- ===== src/Arb/Checked.antt =====
-- What a file that `read` accepts has passed: the guards of `read` (src/binary/reader.rs).
use astronomy.Prelude.{
  ℕ, ◌-◌, ◌≤◌, ◌≡◌, true, List, length, take, drop, ltb, ◌==◌, ==_iff, lt→ltb, Bool-cases, inl, inr,
  arith,
}
use astronomy.Ir.Modules.{Module}
use astronomy.Arb.Bytes.{from_le_bytes}
use astronomy.Arb.Errors.{Result, ok, err, bad_magic}
use astronomy.Arb.Crc.{crc32}
use astronomy.Arb.Cursor.{new, Cursor}
use astronomy.Arb.Decode.{is_arb, read, read_header, read_body, after_header}

-- The footer of a file, and what it is the checksum of.
abbrev pub stored_checksum : List ℕ → ℕ
stored_checksum file = from_le_bytes (drop (length file - 4) file)

abbrev pub checked_bytes : List ℕ → List ℕ
checked_bytes file = take (length file - 4) file

body_checked :
    (body : List ℕ) (stored : ℕ) (m : Module) → read_body body stored ≡ ok m → stored ≡ crc32 body
unfolding read_body
body_checked body stored m h = elim (Bool-cases (stored == crc32 body)) [
  | inl e ↦ (==_iff stored (crc32 body)).0 e
  | inr e ↦ absurd (let q : err _ ≡ ok m = rw e at h in cc)
]

footer_checked :
    (file : List ℕ) (m : Module) (head : Result (Unit {0} × Cursor))
    → after_header file head ≡ ok m
    → (20 ≤ length file) × (stored_checksum file ≡ crc32 (checked_bytes file))
footer_checked file m (err e) h = absurd (let q : err e ≡ ok m = h in cc)
footer_checked file m (ok c) h = elim (Bool-cases (ltb (length file) 20)) [
  | inl e ↦ absurd (let q : err _ ≡ ok m = rw e at h in cc)
  | inr e ↦ (ground (arith, lt→ltb (length file) 20), body_checked _ _ m (rw e at h))
]

-- Where `read` returns a module, the file starts with the magic number, has room for a header and a footer, and the footer is the CRC-32 of all that comes before it.
pub read-checked :
    (file : List ℕ) (m : Module)
    → read file ≡ ok m
    → (is_arb file ≡ true)
      × (20 ≤ length file)
      × (stored_checksum file ≡ crc32 (checked_bytes file))
unfolding read
read-checked file m h = elim (Bool-cases (is_arb file)) [
  | inl e ↦
      let (long, sum) = footer_checked file m (read_header (new file 0)) (rw e at h) in
      (e, long, sum)
  | inr e ↦ absurd (let q : err bad_magic ≡ ok m = rw e at h in cc)
]
