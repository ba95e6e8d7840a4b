-- ===== src/Ir/Constants/Masks.antt =====
-- Masking a constant to its width (`ConstantStore::mask_unsigned`, src/constant.rs).
use astronomy.Prelude.{
  ℕ, zero, suc, ◌+◌, ◌-◌, ◌*◌, ◌/◌, ◌%◌, ◌^◌, ◌<◌, ◌≤◌, ◌≡◌, refl, sym, ap, subst, arith, bit_and,
  leb, Bool-cases, inl, inr,
}
use native.Mathlib.Nat.{pow-suc}
use astronomy.Prelude.Bits.{bit_and-digit, bit_and_high}
use astronomy.Ir.Constants.{mask, mask_unsigned}

-- `low` is the remainder of `v` by 2 ^ w.
pub record IsRemainder (v w low : ℕ) : Type 0 where
  pub quotient : ℕ
  pub sum : v ≡ low + quotient * 2 ^ w
  pub small : low < 2 ^ w

-- Masking by `w` ones, one bit after the other.
pub bit_and_ones-IsRemainder : (w v : ℕ) → v < 2 ^ 128 → IsRemainder v w (bit_and v (2 ^ w - 1))
bit_and_ones-IsRemainder zero v h =
    let none_left : bit_and v (2 ^ 0 - 1) ≡ 0 = bit_and_high 128 v 0 h in
    record { quotient = v; sum = omega (arith, none_left); small = omega (arith, none_left) }
bit_and_ones-IsRemainder (suc w) v h =
    let half = bit_and_ones-IsRemainder w (v / 2) (omega arith) in
    let ones : (2 ^ suc w - 1) / 2 ≡ 2 ^ w - 1 = omega (arith, pow-suc 2 w) in
    let last : (2 ^ suc w - 1) % 2 ≡ 1 = omega (arith, pow-suc 2 w, half.small) in
    let digit : bit_and v (2 ^ suc w - 1) ≡ v % 2 + 2 * bit_and (v / 2) (2 ^ w - 1) =
      omega (arith, bit_and-digit v (2 ^ suc w - 1), last, ap (bit_and (v / 2)) ones) in
    let shifted : half.quotient * 2 ^ suc w ≡ 2 * (half.quotient * 2 ^ w) =
      omega (arith, ap (λ (t : ℕ). half.quotient * t) (pow-suc 2 w)) in
    record {
      quotient = half.quotient;
      sum = omega (arith, digit, shifted, half.sum);
      small = omega (arith, digit, pow-suc 2 w, half.small);
    }

mask_ones : (width : ℕ) → width ≤ 128 → mask width ≡ 2 ^ width - 1
unfolding mask
mask_ones width h = elim (Bool-cases (leb 128 width)) [
  | inl e ↦ let at : width ≡ 128 = ground arith in subst (λ w. mask w ≡ 2 ^ w - 1) (sym at) refl
  | inr e ↦ rw e
]

-- For a `u128` value and a width of at most 128, `mask_unsigned` is the remainder of the value by 2 ^ width.
pub mask_unsigned-IsRemainder :
    (value width : ℕ)
    → value < 2 ^ 128
    → width ≤ 128
    → IsRemainder value width (mask_unsigned value width)
unfolding mask_unsigned
mask_unsigned-IsRemainder value width h narrow =
    rw (mask_ones width narrow) (bit_and_ones-IsRemainder width value h)
