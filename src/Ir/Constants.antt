-- ===== src/Ir/Constants.antt =====
-- The constant pool (src/constant.rs).
pub mod Masks
use astronomy.Prelude.{
  ℕ, ◌-◌, ◌^◌, ◌≡◌, ◌↔◌, Bool, true, false, ◌&&◌, List, Option, arith, leb, bit_and, if◌then◌else◌,
}
use astronomy.Prelude.Eq.{PartialEq, ◌==◌, nat_eq, list_eq, list_beq_iff}
use astronomy.Ir.Interner.{Store, new, get, intern}
use astronomy.Ir.Types.{TypeId}

abbrev pub ConstantId : Type 0
ConstantId = ℕ

-- A `Vec<u8>` is a list of numbers below 256.
pub data ConstantData : Type 0 where
  int : (ty : TypeId) (width bits : ℕ) → ConstantData
  float : (ty : TypeId) (bits : ℕ) → ConstantData
  null : (pointee : TypeId) → ConstantData
  string : (bytes : List ℕ) → ConstantData
  aggregate : (ty : TypeId) (elements : List ConstantId) → ConstantData

-- `derive(PartialEq)`
abbrev pub constant_beq : ConstantData → ConstantData → Bool
constant_beq (int t w b) (int t' w' b') = t == t' && (w == w' && b == b')
constant_beq (float t b) (float t' b') = t == t' && b == b'
constant_beq (null p) (null p') = p == p'
constant_beq (string bs) (string bs') = bs == bs'
constant_beq (aggregate t es) (aggregate t' es') = t == t' && es == es'
constant_beq _ _ = false

pub constant_beq_iff : (a b : ConstantData) → (constant_beq a b ≡ true) ↔ (a ≡ b)
constant_beq_iff (string bs) (string bs') = ground (arith, list_beq_iff bs bs')
constant_beq_iff (aggregate t es) (aggregate t' es') = ground (arith, list_beq_iff es es')
constant_beq_iff _ _ = ground arith

instance abbrev pub constant_eq : PartialEq ConstantData
constant_eq = record { same = constant_beq; same_iff = constant_beq_iff }

abbrev pub ConstantStore : Type 0
ConstantStore = Store ConstantData

-- `ConstantStore::new`
unfoldable pub new_constants : ConstantStore
new_constants = new

unfoldable pub intern_constant : ConstantStore → ConstantData → ConstantStore × ConstantId
intern_constant s c = intern s c

-- `ConstantStore::get`
unfoldable pub constant_at : ConstantStore → ConstantId → Option ConstantData
unfolding get
constant_at s id = get s id

-- All-ones mask for `width` bits, as a `u128`.
unfoldable pub mask : ℕ → ℕ
mask width = if leb 128 width then 2 ^ 128 - 1 else 2 ^ width - 1

unfoldable pub mask_unsigned : ℕ → ℕ → ℕ
unfolding mask
mask_unsigned value width = bit_and value (mask width)
