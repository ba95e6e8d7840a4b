-- ===== src/Arb/Writer.antt =====
-- The output buffer of the encoder (`Writer`, src/binary/writer.rs). Each operation appends to
-- `out`; `none` is a panic.
use astronomy.Prelude.{
  ℕ, zero, suc, ◌+◌, ◌-◌, ◌%◌, ◌^◌, Bool, List, [], ◌∷◌, ◌++◌, Option, none, some, ltb,
  if◌then◌else◌, length, take, drop,
}
use astronomy.Ir.Interner.{Store, get}
use astronomy.Arb.Bytes.{to_le_bytes}

abbrev pub Writer : Type 0
Writer = List ℕ → Option (List ℕ)

abbrev pub and_then : Option (List ℕ) → Writer → Option (List ℕ)
and_then none w = none
and_then (some out) w = w out

infixl 5 ◌>>◌
unfoldable pub ◌>>◌ : Writer → Writer → Writer
◌>>◌ v w out = and_then (v out) w

unfoldable pub skip : Writer
skip out = some out

unfoldable pub panic : Writer
panic out = none

unfoldable pub bytes : List ℕ → Writer
bytes b out = some (out ++ b)

unfoldable pub u8 : ℕ → Writer
u8 v = bytes (v ∷ [])

unfoldable pub bool : Bool → Writer
bool v = u8 (if v then 1 else 0)

unfoldable pub u16 : ℕ → Writer
u16 v = bytes (to_le_bytes 2 v)

unfoldable pub u32 : ℕ → Writer
u32 v = bytes (to_le_bytes 4 v)

unfoldable pub u64 : ℕ → Writer
u64 v = bytes (to_le_bytes 8 v)

unfoldable pub u128 : ℕ → Writer
u128 v = bytes (to_le_bytes 16 v)

-- `u32::try_from(n).expect(..)`
unfoldable pub len : ℕ → Writer
len n = if ltb n (2 ^ 32) then u32 n else panic

unfoldable pub opt_u32 : Option ℕ → Writer
opt_u32 none = u8 0
opt_u32 (some v) = u8 1 >> u32 v

unfoldable pub blob : List ℕ → Writer
blob b = len (length b) >> bytes b

-- `for x in xs { write(x) }`
unfoldable pub each {ℓ} : {A : Type ℓ} → (A → Writer) → List A → Writer
each write [] = skip
each write (x ∷ xs) = write x >> each write xs

unfoldable pub ids : List ℕ → Writer
ids xs = len (length xs) >> each u32 xs

-- `.expect("index in range")` on what a table holds at an index.
abbrev pub expect {ℓ} : {A : Type ℓ} → (A → Writer) → Option A → Writer
expect write none = panic
expect write (some a) = write a

-- `for i in start..start + n { write(table.get(i as u32).expect(..)) }`
unfoldable pub each_entry {ℓ} : {A : Type ℓ} → (A → Writer) → Store A → ℕ → ℕ → Writer
each_entry write table zero start = skip
each_entry write table (suc n) start =
    expect write (get table (start % 2 ^ 32)) >> each_entry write table n (start + 1)

-- `out[at..at + patch.len()].copy_from_slice(patch)`
unfoldable pub copy_from_slice : List ℕ → ℕ → List ℕ → List ℕ
copy_from_slice out at patch = take at out ++ (patch ++ drop (at + length patch) out)

-- The body's length overwrites the placeholder in front of it.
unfoldable pub section : List ℕ → Writer → Writer
section tag body out =
    let len_at = length (out ++ tag) in
    let start = len_at + 8 in
    and_then ((bytes tag >> (u64 0 >> body)) out)
      (λ written. some (copy_from_slice written len_at (to_le_bytes 8 (length written - start))))
