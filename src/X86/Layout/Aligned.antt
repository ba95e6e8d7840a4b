-- ===== src/X86/Layout/Aligned.antt =====
-- Alignments, and rounding up to one.
use astronomy.Prelude.{
  ℕ, ◌+◌, ◌-◌, ◌*◌, ◌/◌, ◌%◌, ◌^◌, ◌<◌, ◌≤◌, ◌≡◌, ◌⊎◌, refl, sym, ap, ◌∙◌, subst, none, some, arith,
  max, bit_and, Bool-cases, ltb, ltb→lt, leb, inl, inr, if◌then◌else◌,
}
use mathlib.Core.Logic.{⊎_elim}
use mathlib.Core.Option.{some-injective}
use astronomy.Prelude.Bits.{bit_and-digit}
use astronomy.Ir.Constants.Masks.{bit_and_ones-IsRemainder}
use astronomy.X86.Layout.{align_up, int_align}

-- The alignments that the back end uses.
abbrev pub IsAlign : ℕ → Type 0
IsAlign a = (a ≡ 1) ⊎ ((a ≡ 2) ⊎ ((a ≡ 4) ⊎ ((a ≡ 8) ⊎ (a ≡ 16))))

bit_and_double : (x b : ℕ) → bit_and x (2 * b) ≡ 2 * bit_and (x / 2) b
bit_and_double x b =
    let half : 2 * b / 2 ≡ b = omega arith in
    omega (arith, bit_and-digit x (2 * b), ap (bit_and (x / 2)) half)

cleared_1 : (x : ℕ) → x < 2 ^ 64 → bit_and x (2 ^ 64 - 1 - (1 - 1)) ≡ 1 * (x / 1)
cleared_1 x h =
    let r = bit_and_ones-IsRemainder 64 (x) (omega (arith, h)) in omega (arith, h, r.sum, r.small)

cleared_2 : (x : ℕ) → x < 2 ^ 64 → bit_and x (2 ^ 64 - 1 - (2 - 1)) ≡ 2 * (x / 2)
cleared_2 x h =
    let d0 : bit_and (x) (2 ^ 64 - 2) ≡ 2 * bit_and (x / 2) (2 ^ 63 - 1) =
      bit_and_double (x) (2 ^ 63 - 1) in
    let r = bit_and_ones-IsRemainder 63 (x / 2) (omega (arith, h)) in
    omega (arith, h, r.sum, r.small, d0)

cleared_4 : (x : ℕ) → x < 2 ^ 64 → bit_and x (2 ^ 64 - 1 - (4 - 1)) ≡ 4 * (x / 4)
cleared_4 x h =
    let d0 : bit_and (x) (2 ^ 64 - 4) ≡ 2 * bit_and (x / 2) (2 ^ 63 - 2) =
      bit_and_double (x) (2 ^ 63 - 2) in
    let d1 : bit_and (x / 2) (2 ^ 63 - 2) ≡ 2 * bit_and (x / 2 / 2) (2 ^ 62 - 1) =
      bit_and_double (x / 2) (2 ^ 62 - 1) in
    let r = bit_and_ones-IsRemainder 62 (x / 2 / 2) (omega (arith, h)) in
    omega (arith, h, r.sum, r.small, d0, d1)

cleared_8 : (x : ℕ) → x < 2 ^ 64 → bit_and x (2 ^ 64 - 1 - (8 - 1)) ≡ 8 * (x / 8)
cleared_8 x h =
    let d0 : bit_and (x) (2 ^ 64 - 8) ≡ 2 * bit_and (x / 2) (2 ^ 63 - 4) =
      bit_and_double (x) (2 ^ 63 - 4) in
    let d1 : bit_and (x / 2) (2 ^ 63 - 4) ≡ 2 * bit_and (x / 2 / 2) (2 ^ 62 - 2) =
      bit_and_double (x / 2) (2 ^ 62 - 2) in
    let d2 : bit_and (x / 2 / 2) (2 ^ 62 - 2) ≡ 2 * bit_and (x / 2 / 2 / 2) (2 ^ 61 - 1) =
      bit_and_double (x / 2 / 2) (2 ^ 61 - 1) in
    let r = bit_and_ones-IsRemainder 61 (x / 2 / 2 / 2) (omega (arith, h)) in
    omega (arith, h, r.sum, r.small, d0, d1, d2)

cleared_16 : (x : ℕ) → x < 2 ^ 64 → bit_and x (2 ^ 64 - 1 - (16 - 1)) ≡ 16 * (x / 16)
cleared_16 x h =
    let d0 : bit_and (x) (2 ^ 64 - 16) ≡ 2 * bit_and (x / 2) (2 ^ 63 - 8) =
      bit_and_double (x) (2 ^ 63 - 8) in
    let d1 : bit_and (x / 2) (2 ^ 63 - 8) ≡ 2 * bit_and (x / 2 / 2) (2 ^ 62 - 4) =
      bit_and_double (x / 2) (2 ^ 62 - 4) in
    let d2 : bit_and (x / 2 / 2) (2 ^ 62 - 4) ≡ 2 * bit_and (x / 2 / 2 / 2) (2 ^ 61 - 2) =
      bit_and_double (x / 2 / 2) (2 ^ 61 - 2) in
    let d3 : bit_and (x / 2 / 2 / 2) (2 ^ 61 - 2) ≡ 2 * bit_and (x / 2 / 2 / 2 / 2) (2 ^ 60 - 1) =
      bit_and_double (x / 2 / 2 / 2) (2 ^ 60 - 1) in
    let r = bit_and_ones-IsRemainder 60 (x / 2 / 2 / 2 / 2) (omega (arith, h)) in
    omega (arith, h, r.sum, r.small, d0, d1, d2, d3)

pub int_align-IsAlign : (bits : ℕ) → IsAlign (int_align bits)
int_align-IsAlign bits = elim (Bool-cases (leb bits 8)) [
  | inl e ↦ rw e (inl refl)
  | inr e ↦ elim (Bool-cases (leb bits 16)) [
    | inl f ↦ rw (e, f) (inr (inl refl))
    | inr f ↦ elim (Bool-cases (leb bits 32)) [
      | inl g ↦ rw (e, f, g) (inr (inr (inl refl)))
      | inr g ↦ elim (Bool-cases (leb bits 64)) [
        | inl h ↦ rw (e, f, g, h) (inr (inr (inr (inl refl))))
        | inr h ↦ rw (e, f, g, h) (inr (inr (inr (inr refl))))
      ]
    ]
  ]
]

-- The greater of two alignments is one of them.
pub max-IsAlign : (a b : ℕ) → IsAlign a → IsAlign b → IsAlign (max a b)
max-IsAlign a b ha hb =
    let one : (max a b ≡ a) ⊎ (max a b ≡ b) = omega arith in
    ⊎_elim (λ e. subst IsAlign (sym e) ha) (λ e. subst IsAlign (sym e) hb) one

-- Rounding up gives the next multiple.
abbrev pub IsNext : ℕ → ℕ → ℕ → Type 0
IsNext value align r = (value ≤ r) × (r % align ≡ 0) × (r < value + align)

pub align_up-IsNext :
    (value align r : ℕ) → IsAlign align → align_up value align ≡ some r → IsNext value align r
unfolding align_up
align_up-IsNext value align r shape ran = elim (Bool-cases (ltb (value + (align - 1)) (2 ^ 64))) [
  | inr far ↦ absurd (
      let z =
        ap
          (λ c. if c then some (bit_and (value + (align - 1)) (2 ^ 64 - 1 - (align - 1))) else none)
          (sym far)
        ∙ ran in
      cc)
  | inl near ↦
      let e : bit_and (value + (align - 1)) (2 ^ 64 - 1 - (align - 1)) ≡ r = some-injective _ _ (
        ap
          (λ c. if c then some (bit_and (value + (align - 1)) (2 ^ 64 - 1 - (align - 1))) else none)
          (sym near)
        ∙ ran) in
      let lt = ltb→lt (value + (align - 1)) (2 ^ 64) near in
      subst (λ x. IsNext value align x) e (at align shape lt)
]
  where
    at :
        (a : ℕ)
        → IsAlign a
        → value + (a - 1) < 2 ^ 64
        → IsNext value a (bit_and (value + (a - 1)) (2 ^ 64 - 1 - (a - 1)))
    at a h lt =
        let cases : (b : ℕ)
            → (a ≡ b)
            → (bit_and (value + (b - 1)) (2 ^ 64 - 1 - (b - 1)) ≡ b * ((value + (b - 1)) / b))
            → IsNext value b (b * ((value + (b - 1)) / b))
            → IsNext value a (bit_and (value + (a - 1)) (2 ^ 64 - 1 - (a - 1))) =
          λ b e mask next.
            subst (λ x. IsNext value x (bit_and (value + (x - 1)) (2 ^ 64 - 1 - (x - 1)))) (sym e)
              (subst (IsNext value b) (sym mask) next) in
        ⊎_elim
          (λ e.
            cases 1 e (cleared_1 (value + (1 - 1)) (omega (arith, lt, e)))
              (omega arith, omega arith, omega arith))
          (⊎_elim
            (λ e.
              cases 2 e (cleared_2 (value + (2 - 1)) (omega (arith, lt, e)))
                (omega arith, omega arith, omega arith))
            (⊎_elim
              (λ e.
                cases 4 e (cleared_4 (value + (4 - 1)) (omega (arith, lt, e)))
                  (omega arith, omega arith, omega arith))
              (⊎_elim
                (λ e.
                  cases 8 e (cleared_8 (value + (8 - 1)) (omega (arith, lt, e)))
                    (omega arith, omega arith, omega arith))
                (λ e.
                  cases 16 e (cleared_16 (value + (16 - 1)) (omega (arith, lt, e)))
                    (omega arith, omega arith, omega arith)))))
          h
