-- ===== src/Arb/RoundTrip/Tables.antt =====
-- Entries of the type table and of the constant pool, read back as they were written.
use astronomy.Prelude.{
  ℕ, ◌<◌, ◌≤◌, ◌^◌, ◌≡◌, refl, ap, ◌∙◌, ◌-◌, ◌*◌, Bool, true, List, [], ◌∷◌, All, arith, lt→ltb,
  ◌==◌, ==_iff, bit_and,
}
use native.Mathlib.Nat.{pow-le-pow_right, lt_of_lt_of_le}
use astronomy.Prelude.Bits.{bit_and_high, passes_below, passes_below-get}
use astronomy.Ir.Types.{FloatKind, TypeData}
use astronomy.Ir.Constants.{ConstantData, mask}
use astronomy.Arb.Bytes.{IsU32}
use astronomy.Arb.Writer
use astronomy.Arb.Writer.{◌>>◌}
use astronomy.Arb.Cursor.{pure, ◌>>=◌}
use astronomy.Arb.Codec.{
  RoundTrip, RoundTrip-bind, RoundTrip-map, RoundTrip-tag, RoundTrip-known, RoundTrip-offset,
  RoundTrip-weaken,
}
use astronomy.Arb.Codec.Words.{
  RoundTrip-u8, RoundTrip-u32, RoundTrip-u64, RoundTrip-u128, RoundTrip-bool,
}
use astronomy.Arb.Codec.Lists.{RoundTrip-ids, RoundTrip-blob}
use astronomy.Arb.Encodable.{IsType, IsConstant}
use astronomy.Arb.Encode.Tables.{type_data, constant, float_kind}
use astronomy.Arb.Decode.Tables.{
  earlier, all_earlier, read_int_type, read_float_type, read_pointer_type, read_array_type,
  read_struct_type, read_function_type, read_type_body, read_type, read_int_constant,
  read_constant_body, read_constant, not_u128,
}

earlier-eq-pure : (at index id : ℕ) → id < index → earlier at index id ≡ pure id
unfolding earlier
earlier-eq-pure at index id h = rw (lt→ltb id index h)

all_earlier-eq-pure :
    (at index : ℕ) (ids : List ℕ) → All (λ f. f < index) ids → all_earlier at index ids ≡ pure ids
unfolding all_earlier ◌>>=◌ pure
all_earlier-eq-pure at index [] h = refl
all_earlier-eq-pure at index (id ∷ ids) (h, hs) =
    rw (earlier-eq-pure at index id h) (unfold pure in rw (all_earlier-eq-pure at index ids hs))

All-IsU32 : (index : ℕ) (ids : List ℕ) → index ≤ 2 ^ 32 → All (λ f. f < index) ids → All IsU32 ids
All-IsU32 index [] hi h = tt
All-IsU32 index (id ∷ ids) hi (h, hs) = (omega arith, All-IsU32 index ids hi hs)

module _ (at index : ℕ) (hi : index ≤ 2 ^ 32) where
  int_body :
      (bits : ℕ) (signed : Bool)
      → IsType index (TypeData.int bits signed)
      → RoundTrip 0 (Writer.u32 bits >> Writer.bool signed) read_int_type (TypeData.int bits signed)
  unfolding read_int_type
  int_body bits signed h =
      RoundTrip-weaken 0
        (RoundTrip-offset λ n.
          RoundTrip-bind _ (RoundTrip-u32 bits _ (omega arith))
            (RoundTrip-tag _ (RoundTrip-bool signed _) (ground arith)))
        (omega arith)

  float_body :
      (kind : FloatKind)
      → RoundTrip 0 (Writer.u8 (float_kind kind)) read_float_type (TypeData.float kind)
  unfolding read_float_type
  float_body FloatKind.f32 =
      RoundTrip-weaken 0 (RoundTrip-offset λ n. RoundTrip-tag _ (RoundTrip-u8 _ _) refl)
        (omega arith)
  float_body FloatKind.f64 =
      RoundTrip-weaken 0 (RoundTrip-offset λ n. RoundTrip-tag _ (RoundTrip-u8 _ _) refl)
        (omega arith)

  pointer_body :
      (pointee space : ℕ)
      → IsType index (TypeData.pointer pointee space)
      → RoundTrip 0
          (Writer.u32 pointee >> Writer.u32 space)
          (read_pointer_type at index)
          (TypeData.pointer pointee space)
  unfolding read_pointer_type
  pointer_body pointee space (hp, hs) =
      RoundTrip-weaken 0
        (RoundTrip-bind _ (RoundTrip-u32 pointee _ (omega arith)) (
          RoundTrip-known _ (earlier-eq-pure at index pointee hp)
            (RoundTrip-map _ (RoundTrip-u32 space _ hs))))
        (omega arith)

  array_body :
      (element count : ℕ)
      → IsType index (TypeData.array element count)
      → RoundTrip 0
          (Writer.u32 element >> Writer.u64 count)
          (read_array_type at index)
          (TypeData.array element count)
  unfolding read_array_type
  array_body element count (he, hc) =
      RoundTrip-weaken 0
        (RoundTrip-bind _ (RoundTrip-u32 element _ (omega arith)) (
          RoundTrip-known _ (earlier-eq-pure at index element he)
            (RoundTrip-map _ (RoundTrip-u64 count _ hc))))
        (omega arith)

  struct_body :
      (fields : List ℕ)
      → IsType index (TypeData.struct fields)
      → RoundTrip 0 (Writer.ids fields) (read_struct_type at index) (TypeData.struct fields)
  unfolding read_struct_type ◌>>=◌ pure
  struct_body fields h =
      RoundTrip-weaken 0
        (RoundTrip-tag _ (RoundTrip-ids fields _ (All-IsU32 index fields hi h))
          (rw (all_earlier-eq-pure at index fields h)))
        (omega arith)

  function_body :
      (params : List ℕ) (variadic : Bool) (result : ℕ)
      → IsType index (TypeData.function params variadic result)
      → RoundTrip 0
          (Writer.ids params >> (Writer.bool variadic >> Writer.u32 result))
          (read_function_type at index)
          (TypeData.function params variadic result)
  unfolding read_function_type
  function_body params variadic result (hs, hr) =
      RoundTrip-weaken 0
        (RoundTrip-bind _ (RoundTrip-ids params _ (All-IsU32 index params hi hs)) (
          RoundTrip-known _ (all_earlier-eq-pure at index params hs) (
            RoundTrip-bind _ (RoundTrip-bool variadic _) (
              RoundTrip-tag _ (RoundTrip-u32 result _ (omega arith))
                (unfold ◌>>=◌ pure in rw (earlier-eq-pure at index result hr))))))
        (omega arith)

-- A type that only refers to entries before it is read back at its place in the table.
pub RoundTrip-type :
    (index : ℕ) (t : TypeData)
    → index ≤ 2 ^ 32
    → IsType index t
    → RoundTrip 1 (type_data t) (read_type index) t
unfolding type_data read_type read_type_body
RoundTrip-type index TypeData.void hi h =
    RoundTrip-offset λ e. RoundTrip-offset λ n. RoundTrip-tag _ (RoundTrip-u8 _ _) refl
RoundTrip-type index (TypeData.int bits signed) hi h = RoundTrip-offset λ e.
    RoundTrip-offset λ n. RoundTrip-bind _ (RoundTrip-u8 _ _) (int_body e index hi bits signed h)
RoundTrip-type index (TypeData.float kind) hi h =
    RoundTrip-offset
      λ e. RoundTrip-offset λ n. RoundTrip-bind _ (RoundTrip-u8 _ _) (float_body e index hi kind)
RoundTrip-type index (TypeData.pointer p a) hi h =
    RoundTrip-offset
      λ e. RoundTrip-offset λ n. RoundTrip-bind _ (RoundTrip-u8 _ _) (pointer_body e index hi p a h)
RoundTrip-type index (TypeData.array t k) hi h =
    RoundTrip-offset
      λ e. RoundTrip-offset λ n. RoundTrip-bind _ (RoundTrip-u8 _ _) (array_body e index hi t k h)
RoundTrip-type index (TypeData.struct fs) hi h =
    RoundTrip-offset
      λ e. RoundTrip-offset λ n. RoundTrip-bind _ (RoundTrip-u8 _ _) (struct_body e index hi fs h)
RoundTrip-type index (TypeData.function ps v r) hi h = RoundTrip-offset λ e.
    RoundTrip-offset λ n. RoundTrip-bind _ (RoundTrip-u8 _ _) (function_body e index hi ps v r h)

-- `!mask(width)` has its ones above `width` bits.
high_ones : ℕ → Bool
high_ones width = not_u128 (mask width) == (2 ^ (128 - width) - 1) * 2 ^ width

high_ones_table : passes_below high_ones 129 ≡ true
unfolding passes_below high_ones mask
high_ones_table = refl

high_ones_lem :
    (width : ℕ) → width ≤ 128 → not_u128 (mask width) ≡ (2 ^ (128 - width) - 1) * 2 ^ width
unfolding high_ones
high_ones_lem width h =
    (==_iff _ _).0 (passes_below-get high_ones 129 width high_ones_table (omega arith))

masked_bits :
    (width bits : ℕ) → width ≤ 128 → bits < 2 ^ width → bit_and bits (not_u128 (mask width)) ≡ 0
masked_bits width bits hw hb =
    ap (bit_and bits) (high_ones_lem width hw) ∙ bit_and_high width bits (2 ^ (128 - width) - 1) hb

module _ (i : ℕ) where
  int_constant_body :
      (ty width bits : ℕ)
      → IsConstant (ConstantData.int ty width bits)
      → RoundTrip 4
          (Writer.u32 ty >> (Writer.u32 width >> Writer.u128 bits))
          (read_int_constant i)
          (ConstantData.int ty width bits)
  unfolding read_int_constant
  int_constant_body ty width bits (ht, lo, hi, hb) =
      RoundTrip-weaken 4
        (RoundTrip-bind _ (RoundTrip-u32 ty _ ht) (
          RoundTrip-offset λ n. RoundTrip-bind _ (RoundTrip-u32 width _ (omega arith)) (
            RoundTrip-tag _
              (RoundTrip-u128 bits _
                (lt_of_lt_of_le hb (pow-le-pow_right (let e : 0 < 2 = omega arith in e) hi)))
              (ground (arith, masked_bits width bits hi hb)))))
        (omega arith)

-- A constant is read back by the branch of its tag.
pub RoundTrip-constant :
    (i : ℕ) (c : ConstantData) → IsConstant c → RoundTrip 5 (constant c) (read_constant i) c
unfolding constant read_constant read_constant_body
RoundTrip-constant i (ConstantData.int ty width bits) h =
    RoundTrip-offset λ n. RoundTrip-bind _ (RoundTrip-u8 _ _) (int_constant_body i ty width bits h)
RoundTrip-constant i (ConstantData.float ty bits) (ht, hb) =
    RoundTrip-weaken 5
      (RoundTrip-offset λ n.
        RoundTrip-bind _ (RoundTrip-u8 _ _)
          (RoundTrip-bind _ (RoundTrip-u32 ty _ ht) (RoundTrip-map _ (RoundTrip-u64 bits _ hb))))
      (omega arith)
RoundTrip-constant i (ConstantData.null pointee) h =
    RoundTrip-offset
      λ n. RoundTrip-bind _ (RoundTrip-u8 _ _) (RoundTrip-map _ (RoundTrip-u32 pointee _ h))
RoundTrip-constant i (ConstantData.string bytes) h =
    RoundTrip-offset
      λ n. RoundTrip-bind _ (RoundTrip-u8 _ _) (RoundTrip-map _ (RoundTrip-blob bytes _))
RoundTrip-constant i (ConstantData.aggregate ty elements) (ht, he) =
    RoundTrip-weaken 5
      (RoundTrip-offset λ n.
        RoundTrip-bind _ (RoundTrip-u8 _ _) (
          RoundTrip-bind _ (RoundTrip-u32 ty _ ht) (RoundTrip-map _ (RoundTrip-ids elements _ he))))
      (omega arith)
