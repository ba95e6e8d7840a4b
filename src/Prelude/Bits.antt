-- ===== src/Prelude/Bits.antt =====
-- Laws of `&` and `^` on numbers of any width, from the recursion on binary digits that the native
-- operations stand for.
use Prim.Native.Nat.{
  ℕ, zero, suc, ◌+◌, ◌*◌, ◌/◌, ◌%◌, ◌^◌, ◌≤◌, ◌<◌, min, differ, bit_and, bit_xor, digits,
  bit_and-bitwise, bit_xor-bitwise,
}
use mathlib.Core.Bool.{Bool, true, ◌&&◌}
use mathlib.Core.Path.{◌≡◌, refl, ap}
use native.Mathlib.Nat.{pow-suc}
use native.Mathlib.Omega.{arith}

-- Fuel beyond the first argument changes nothing.
module _ (over : ℕ → ℕ) (digit : ℕ → ℕ → ℕ) where
  enough_fuel : (k n a b : ℕ) → a ≤ k → a ≤ n → digits over digit k a b ≡ digits over digit n a b
  enough_fuel zero zero zero b hk hn = refl
  enough_fuel zero (suc n) zero b hk hn = refl
  enough_fuel (suc k) zero zero b hk hn = refl
  enough_fuel (suc k) (suc n) zero b hk hn = refl
  enough_fuel (suc k) (suc n) (suc a) b hk hn =
      ap (λ (t : ℕ). t * 2 + digit (suc a % 2) (b % 2))
        (enough_fuel k n (suc a / 2) (b / 2) (omega arith) (omega arith))
  enough_fuel zero n (suc a) b hk hn = absurd (omega arith)
  enough_fuel (suc k) zero (suc a) b hk hn = absurd (omega arith)

-- `a & b` and `a ^ b` by their lowest digit.
pub bit_and-digit : (a b : ℕ) → bit_and a b ≡ min (a % 2) (b % 2) + 2 * bit_and (a / 2) (b / 2)
bit_and-digit zero b = omega (arith, bit_and-bitwise 0 b, bit_and-bitwise 0 (b / 2))
bit_and-digit (suc a) b =
    let q = suc a / 2 in
    omega (
      arith,
      bit_and-bitwise (suc a) b,
      bit_and-bitwise q (b / 2),
      enough_fuel (λ _. 0) min a q q (b / 2) (omega arith) (omega arith),
    )

pub bit_xor-digit : (a b : ℕ) → bit_xor a b ≡ differ (a % 2) (b % 2) + 2 * bit_xor (a / 2) (b / 2)
bit_xor-digit zero b = omega (arith, bit_xor-bitwise 0 b, bit_xor-bitwise 0 (b / 2))
bit_xor-digit (suc a) b =
    let q = suc a / 2 in
    omega (
      arith,
      bit_xor-bitwise (suc a) b,
      bit_xor-bitwise q (b / 2),
      enough_fuel (λ y. y) differ a q q (b / 2) (omega arith) (omega arith),
    )

-- A high mask cuts off nothing of a number below it.
pub bit_and_high : (w a m : ℕ) → a < 2 ^ w → bit_and a (m * 2 ^ w) ≡ 0
bit_and_high zero a m h = ground (arith, bit_and-bitwise 0 m)
bit_and_high (suc w) a m h =
    let half : m * 2 ^ suc w ≡ 2 * (m * 2 ^ w) =
      omega (arith, ap (λ (t : ℕ). m * t) (pow-suc 2 w)) in
    ground (
      arith,
      bit_and-digit a (m * 2 ^ suc w),
      half,
      pow-suc 2 w,
      bit_and_high w (a / 2) m (omega arith),
    )

-- A test on every number below a bound, highest last.
unfoldable pub passes_below : (ℕ → Bool) → ℕ → Bool
passes_below test zero = true
passes_below test (suc bound) = passes_below test bound && test bound

pub passes_below-get :
    (test : ℕ → Bool) (bound i : ℕ) → passes_below test bound ≡ true → i < bound → test i ≡ true
unfolding passes_below
passes_below-get test zero i h lt = absurd (omega arith)
passes_below-get test (suc bound) i h lt =
    ground (arith, passes_below-get test bound i (ground arith))
