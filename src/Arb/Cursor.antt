-- ===== src/Arb/Cursor.antt =====
-- The bounds-checked little-endian cursor of the decoder (`Cursor`, src/binary/reader.rs).
use astronomy.Prelude.{
  ℕ, zero, suc, ◌+◌, ◌-◌, ◌*◌, ◌^◌, Bool, true, false, List, [], ◌∷◌, Option, none, some, ltb, ◌==◌,
  min, if◌then◌else◌, length, String,
}
use astronomy.Prelude.{take as take_list, drop}
use astronomy.Prelude.Eq.{nat_eq, list_beq}
use astronomy.Arb.Bytes.{from_le_bytes}
use astronomy.Arb.Errors.{
  ArbError, Result, ok, err, invalid_value, unexpected_eof, not_a_flag, not_a_presence, cannot_fit,
  unexpected_section, section_length, length_exceeds, unused_bytes,
}

-- `section` is the tag of the section that the cursor spans.
pub record Cursor : Type 0 where
  pub bytes : List ℕ
  pub pos : ℕ
  pub base : ℕ
  pub section : Option (List ℕ)

-- A method that takes `&mut self` and may fail.
abbrev pub Reader {ℓ} : Type ℓ → Type ℓ
Reader A = Cursor → Result (A × Cursor)

module _ {ℓ} {A : Type ℓ} where
  unfoldable pub pure : A → Reader A
  pure a c = ok (a, c)

  unfoldable pub fail : ArbError → Reader A
  fail e c = err e

module _ {ℓ κ} {A : Type ℓ} {B : Type κ} where
  abbrev pub and_then : Result (A × Cursor) → (A → Reader B) → Result (B × Cursor)
  and_then (ok (a, c)) f = f a c
  and_then (err e) f = err e

  infixl 5 ◌>>=◌
  unfoldable pub ◌>>=◌ : Reader A → (A → Reader B) → Reader B
  ◌>>=◌ m f c = and_then (m c) f

-- `Cursor::new`
unfoldable pub new : List ℕ → ℕ → Cursor
new bytes base = record { bytes = bytes; pos = 0; base = base; section = none }

unfoldable pub remaining : Cursor → ℕ
remaining c = length c.bytes - c.pos

unfoldable pub is_empty : Cursor → Bool
is_empty c = remaining c == 0

unfoldable pub offset : Reader ℕ
offset c = ok (c.base + c.pos, c)

unfoldable pub take : ℕ → String → Reader (List ℕ)
take n what c =
    if ltb (remaining c) n
    then err (unexpected_eof (c.base + length c.bytes) what)
    else ok (take_list n (drop c.pos c.bytes), record c { pos = c.pos + n })

-- `self.array::<N>(what).map(uN::from_le_bytes)`
unfoldable pub word : ℕ → String → Reader ℕ
word n what = do b ← take n what; pure (from_le_bytes b)

-- `bytes[0]`, of a slice that has one byte.
abbrev pub first : List ℕ → ℕ
first [] = 0
first (b ∷ bs) = b

unfoldable pub u8 : String → Reader ℕ
u8 what = do b ← take 1 what; pure (first b)

unfoldable pub u16 : String → Reader ℕ
u16 what = word 2 what

unfoldable pub u32 : String → Reader ℕ
u32 what = word 4 what

unfoldable pub u64 : String → Reader ℕ
u64 what = word 8 what

unfoldable pub u128 : String → Reader ℕ
u128 what = word 16 what

unfoldable pub bool : String → Reader Bool
bool what = do
  at ← offset
  v ← u8 what
  if v == 0
      then pure false
      else if v == 1
      then pure true
      else fail (invalid_value at (not_a_flag what v))

unfoldable pub opt_u32 : String → Reader (Option ℕ)
opt_u32 what = do
  at ← offset
  v ← u8 what
  if v == 0
      then pure none
      else if v == 1
      then (do x ← u32 what; pure (some x))
      else fail (invalid_value at (not_a_presence what v))

-- `usize` is 64 bits wide.
abbrev pub saturating_mul : ℕ → ℕ → ℕ
saturating_mul a b = min (a * b) (2 ^ 64 - 1)

-- A list's length is refused unless the bytes that remain can hold that many entries.
unfoldable pub fits_in : ℕ → ℕ → String → ℕ → Reader ℕ
fits_in at min_len what count c =
    if ltb (remaining c) (saturating_mul count min_len)
    then err (invalid_value at (cannot_fit count what (remaining c)))
    else ok (count, c)

unfoldable pub count : ℕ → String → Reader ℕ
count min_len what = do at ← offset; n ← u32 what; fits_in at min_len what n

unfoldable pub blob : String → Reader (List ℕ)
blob what = do n ← count 1 what; take n what

-- `for _ in 0..n { list.push(read()?) }`
unfoldable pub repeat {ℓ} : {A : Type ℓ} → ℕ → Reader A → Reader (List A)
repeat zero read = pure []
repeat (suc n) read = do x ← read; xs ← repeat n read; pure (x ∷ xs)

-- A counted list of entries that take `min_len` bytes at least.
unfoldable pub list_of {ℓ} : {A : Type ℓ} → ℕ → String → Reader A → Reader (List A)
list_of min_len what read = do n ← count min_len what; repeat n read

unfoldable pub ids : String → Reader (List ℕ)
ids what = list_of 4 what (u32 what)

-- `Ok(self.ids(what)?.into_iter().map(ValueId::new).collect())`, with ids as numbers.
unfoldable pub values : String → Reader (List ℕ)
values what = ids what

-- Reads a section header that must carry `tag`; the cursor that comes back spans the body.
unfoldable pub found_tag : List ℕ → ℕ → Result (List ℕ × Cursor) → Result (List ℕ × Cursor)
found_tag tag at (ok (found, c)) =
    if list_beq found tag then ok (found, c) else err (unexpected_section at tag (some found))
found_tag tag at (err e) = err (unexpected_section at tag none)

unfoldable pub length_within : List ℕ → ℕ → ℕ → Reader (Unit {0})
length_within tag at len c =
    if ltb (remaining c) len
    then err (section_length at tag (length_exceeds len (remaining c)))
    else ok (tt, c)

unfoldable pub section : List ℕ → Reader Cursor
section tag = do
  at ← offset
  found ← (λ c. found_tag tag at (take 4 "section tag" c))
  len ← u64 "section length"
  within ← length_within tag at len
  body_at ← offset
  body ← take len "section body"
  pure (record (new body body_at) { section = some tag })

-- Ensures that a section's body was consumed exactly.
unfoldable pub section_tag : Option (List ℕ) → List ℕ
section_tag none = []
section_tag (some tag) = tag

unfoldable pub finish : Cursor → Result (Unit {0})
finish c =
    if is_empty c
    then ok tt
    else err (section_length (c.base + c.pos) (section_tag c.section) (unused_bytes (remaining c)))
