-- ===== src/Arb/Tests.antt =====
-- The theorems on `.arb` at a small module.
use astronomy.Prelude.{
  zero, suc, ◌+◌, ◌≤◌, get_elem?, subst, ℕ, ◌≡◌, ◌^◌, ◌-◌, refl, true, List, [], ◌∷◌, some, length,
  arith,
}
use astronomy.Ir.Types.{TypeData, intern_type, new_types}
use astronomy.Ir.Constants.{ConstantData, intern_constant, new_constants}
use astronomy.Ir.Functions.{InstructionKind}
use astronomy.Ir.Modules.{intern_symbol, new_symbols}
use astronomy.Ir.Interner.{new, intern}
use astronomy.Ir.Types.{intern_all}
use astronomy.Arb.RoundTrip.Words.{IsFixed, words-AreFixed}
use astronomy.Arb.Crc.{crc32}
use astronomy.Arb.Writer
use astronomy.Arb.Cursor.{u16, u32, u64, u128}
use astronomy.Arb.Writer.{◌>>◌, copy_from_slice}
use astronomy.Arb.Encode.Tables as Tables
use astronomy.Arb.Encode.Functions as Encode
use mathlib.Core.Option.{some-injective}
use astronomy.Prelude.Eq.{nat_eq, list_eq}
use astronomy.Ir.Types.{type_eq}
use astronomy.Ir.Constants.{constant_eq}
use astronomy.Ir.Interner.Laws.{new-IsInterned, intern-IsInterned}
use astronomy.Ir.Types.Laws.{new_types-IsInterned}
use astronomy.Arb.Errors.{ok, err, unsupported_version}
use astronomy.Arb.Decode.{read, is_arb}
use astronomy.Arb.Decode.Functions.{read_function}
use astronomy.Arb.Decode.Instructions.{read_instruction_kind}
use astronomy.Arb.Decode.Tables.{read_types, read_constants}
use astronomy.Arb.Codec.{RoundTrip}
use astronomy.Arb.RoundTrip.Functions.{RoundTrip-function}
use astronomy.Arb.RoundTrip.Instructions.{RoundTrip-kind}
use astronomy.Arb.RoundTrip.Stores.{RoundTrip-constants}
use astronomy.Arb.RoundTrip.TypeTable.{RoundTrip-types}
use astronomy.Arb.RoundTrip.Versions.{read-write_unsupported}
use astronomy.Arb.Decode.Utf8.{is_utf8}
use astronomy.Arb.Encodable.{IsType, IsTable, IsFunction, IsEncodable, strip_spans, strip_function}
use astronomy.Arb.Total.{ShortModule}
use astronomy.Arb.Total.Modules.{write_total}
use astronomy.Arb.Sound.Files.{IsAccepted, read-IsAccepted}
use astronomy.Arb.Checked.{read-checked, stored_checksum, checked_bytes}
use astronomy.Arb.RoundTrip.Files.{read-write}
use astronomy.Arb.Encode.{write}
use astronomy.Arb.Samples.{
  main, add_five, sample, sample_file, sample_written, newer, newer_file, newer_written,
}

-- Entry `i` of a type table and those behind it refer only to entries before them.
abbrev AllTypes : ℕ → List TypeData → Type 0
AllTypes i [] = Unit {0}
AllTypes i (t ∷ ts) = IsType i t × AllTypes (suc i) ts

AllTypes-get_elem? :
    (i : ℕ) (ts : List TypeData)
    → AllTypes i ts
    → (j : ℕ) (t : TypeData) → get_elem? ts j ≡ some t
    → IsType (j + i) t
AllTypes-get_elem? i [] h j t e = cc
AllTypes-get_elem? i (u ∷ ts) (hu, hs) zero t e =
    subst (λ k. IsType k t) (let k : i ≡ 0 + i = omega arith in k)
      (subst (IsType i) (some-injective _ _ e) hu)
AllTypes-get_elem? i (u ∷ ts) (hu, hs) (suc j) t e =
    subst (λ k. IsType k t) (let k : j + suc i ≡ suc j + i = omega arith in k)
      (AllTypes-get_elem? (suc i) ts hs j t e)

sample_symbols-IsTable : IsTable sample.symbols
unfolding intern_symbol new_symbols intern new
sample_symbols-IsTable = (intern-IsInterned _ main (omega arith) new-IsInterned, omega arith)

sample_types-IsTable : IsTable sample.types
unfolding intern_type new_types intern_all intern new
sample_types-IsTable = (
  intern-IsInterned new_types (TypeData.pointer 4 0) (omega arith) new_types-IsInterned,
  omega arith,
)

sample_constants-IsTable : IsTable sample.constants
unfolding intern_constant new_constants intern new
sample_constants-IsTable =
    (intern-IsInterned _ (ConstantData.int 4 32 5) (omega arith) new-IsInterned, omega arith)

sample_AllTypes : AllTypes 0 sample.types.entries
unfolding intern_type new_types intern_all intern new
sample_AllTypes = ground arith

add_five-IsFunction : IsFunction 1 add_five
add_five-IsFunction = record {
  symbol = omega arith;
  abi = tt;
  params = ground arith;
  result = omega arith;
  values = (
    record { ty = omega arith; kind = omega arith; name = tt },
    (
      record { ty = omega arith; kind = (omega arith, omega arith); name = tt },
      (record { ty = omega arith; kind = (omega arith, omega arith); name = tt }, tt),
    ),
  );
  blocks = (
    record {
      params = tt;
      instructions = (
        record { kind = omega arith; result = omega arith },
        (record { kind = (omega arith, omega arith); result = omega arith }, tt),
      );
      terminator = omega arith;
      name = tt;
    },
    tt,
  );
}

sample-IsEncodable : IsEncodable sample
unfolding intern_symbol new_symbols intern_type new_types intern_all intern_constant new_constants
    intern new is_utf8
sample-IsEncodable = record {
  major = refl;
  minor = omega arith;
  name = omega arith;
  symbols = sample_symbols-IsTable;
  utf8 = (refl, tt);
  types = sample_types-IsTable;
  prefix = refl;
  well_founded = λ i t e.
      subst (λ k. IsType k t) (let k : i + 0 ≡ i = omega arith in k)
        (AllTypes-get_elem? 0 sample.types.entries sample_AllTypes i t e);
  constants = sample_constants-IsTable;
  masked = (ground arith, tt);
  functions = (add_five-IsFunction, tt);
}

sample-ShortModule : ShortModule sample
unfolding intern_symbol new_symbols intern_type new_types intern_all intern_constant new_constants
    intern new
sample-ShortModule = record {
  symbols = omega arith;
  names = (omega arith, tt);
  types = omega arith;
  type_lists = ground arith;
  constants = omega arith;
  constant_lists = ground arith;
  functions = omega arith;
  function_lists = (
    record {
      params = omega arith;
      values = omega arith;
      blocks = omega arith;
      each = (
        record {
          params = omega arith;
          instructions = omega arith;
          kinds = (tt, (tt, tt));
          terminator = tt;
        },
        tt,
      );
    },
    tt,
  );
}

read-write_example : read sample_file ≡ ok (strip_spans sample)
read-write_example = read-write sample sample_file sample-IsEncodable sample_written (omega arith)

pub sample_accepted : read sample_file ≡ ok (strip_spans sample)
sample_accepted = read-write sample sample_file sample-IsEncodable sample_written (omega arith)

write_total_example : (file : List ℕ) × (write sample ≡ some file)
write_total_example = write_total sample sample-ShortModule

read-checked_example :
    (is_arb sample_file ≡ true)
    × (20 ≤ length sample_file)
    × (stored_checksum sample_file ≡ crc32 (checked_bytes sample_file))
read-checked_example = read-checked sample_file (strip_spans sample) sample_accepted

read-write_unsupported_example : read newer_file ≡ err (unsupported_version 28 2 1)
read-write_unsupported_example =
    read-write_unsupported sample newer newer_file sample-IsEncodable (λ e. cc) (omega arith)
      (omega arith) newer_written (omega arith)

words-AreFixed_example :
    IsFixed 2 (Writer.u16 0xbeef) (u16 "word") 0xbeef
    × IsFixed 4 (Writer.u32 0xcbf43926) (u32 "word") 0xcbf43926
    × IsFixed 8 (Writer.u64 0) (u64 "word") 0
    × IsFixed 16 (Writer.u128 (2 ^ 128 - 1)) (u128 "word") (2 ^ 128 - 1)
words-AreFixed_example =
    words-AreFixed "word" 0xbeef 0xcbf43926 0 (2 ^ 128 - 1) (omega arith) (omega arith)
      (omega arith) (omega arith)

RoundTrip-function_example :
    RoundTrip 23 (Encode.function add_five) (read_function sample.symbols) (strip_function add_five)
unfolding intern_symbol new_symbols intern new
RoundTrip-function_example =
    RoundTrip-function sample.symbols (omega arith) add_five add_five-IsFunction

RoundTrip-kind_example :
    RoundTrip 5
      (Encode.instruction_kind (InstructionKind.add 0 1))
      read_instruction_kind
      (InstructionKind.add 0 1)
RoundTrip-kind_example = RoundTrip-kind (InstructionKind.add 0 1) (omega arith, omega arith)

RoundTrip-types_example :
    RoundTrip 4
      (Writer.len (length sample.types.entries)
        >> Writer.each_entry Tables.type_data sample.types (length sample.types.entries) 0)
      read_types
      sample.types
RoundTrip-types_example =
    RoundTrip-types sample.types sample_types-IsTable sample-IsEncodable.prefix
      sample-IsEncodable.well_founded

RoundTrip-constants_example :
    RoundTrip 4
      (Writer.len (length sample.constants.entries)
        >> Writer.each_entry Tables.constant sample.constants (length sample.constants.entries) 0)
      read_constants
      sample.constants
RoundTrip-constants_example =
    RoundTrip-constants sample.constants sample_constants-IsTable sample-IsEncodable.masked

read-IsAccepted_example : IsAccepted (strip_spans sample)
read-IsAccepted_example = read-IsAccepted sample_file (strip_spans sample) sample_accepted
