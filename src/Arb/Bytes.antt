-- ===== src/Arb/Bytes.antt =====
-- Little-endian words: `to_le_bytes` and `from_le_bytes` of Rust's integers.
use astronomy.Prelude.{
  ℕ, zero, suc, ◌+◌, ◌*◌, ◌/◌, ◌%◌, ◌^◌, ◌<◌, ◌≡◌, refl, ap, List, [], ◌∷◌, length, All, Option,
  none, some, arith,
}
use native.Mathlib.Nat.{pow-suc}

abbrev pub IsByte : ℕ → Type 0
IsByte b = b < 256

abbrev pub IsU32 : ℕ → Type 0
IsU32 v = v < 2 ^ 32

-- An optional id is a `u32` where it is there.
abbrev pub IsOptU32 : Option ℕ → Type 0
IsOptU32 none = Unit {0}
IsOptU32 (some v) = v < 2 ^ 32

-- The low `n` bytes of `v`, lowest first.
unfoldable pub to_le_bytes : ℕ → ℕ → List ℕ
to_le_bytes zero v = []
to_le_bytes (suc n) v = v % 256 ∷ to_le_bytes n (v / 256)

unfoldable pub from_le_bytes : List ℕ → ℕ
from_le_bytes [] = 0
from_le_bytes (b ∷ bs) = b + 256 * from_le_bytes bs

pub length-to_le_bytes : (n v : ℕ) → length (to_le_bytes n v) ≡ n
unfolding to_le_bytes
length-to_le_bytes zero v = refl
length-to_le_bytes (suc n) v = ap suc (length-to_le_bytes n (v / 256))

pub to_le_bytes-IsByte : (n v : ℕ) → All IsByte (to_le_bytes n v)
unfolding to_le_bytes
to_le_bytes-IsByte zero v = tt
to_le_bytes-IsByte (suc n) v = (omega arith, to_le_bytes-IsByte n (v / 256))

-- The `n` bytes of a number below 256 ^ n give the number back.
pub from_le_bytes-to_le_bytes : (n v : ℕ) → v < 256 ^ n → from_le_bytes (to_le_bytes n v) ≡ v
unfolding to_le_bytes from_le_bytes
from_le_bytes-to_le_bytes zero v h = omega arith
from_le_bytes-to_le_bytes (suc n) v h =
    omega (arith, from_le_bytes-to_le_bytes n (v / 256) (omega (arith, pow-suc 256 n)))
