-- ===== src/X86/Tests.antt =====
-- The layout of struct<i8, i64>.
use astronomy.Prelude.{ℕ, ◌+◌, ◌%◌, ◌≤◌, ◌≡◌, refl, [], ◌∷◌, some, arith}
use astronomy.Ir.Interner.{get, intern, new}
use astronomy.Ir.Types.{TypeStore, struct, type_at, intern_type, new_types, intern_all}
use astronomy.Arb.Samples.{sample, sample_file}
use astronomy.Arb.Tests.{sample_accepted}
use astronomy.Arb.Encodable.{strip_spans}
use astronomy.Arb.Sound.Files.{read-IsAccepted}
use astronomy.X86.Layout.{
  done, align_up, layout_from, size_and_align, size_of, align_of, offset_from, field_offset,
  check_supported,
}
use astronomy.X86.Layout.Structs.{field_offset-inside, field_offset-apart}
use astronomy.X86.Layout.Ends.{Ends, size_of-Ends}

abbrev padded : TypeStore
padded = (intern_type new_types (struct (2 ∷ 5 ∷ []))).0

padded-struct : type_at padded 14 ≡ some (struct (2 ∷ 5 ∷ []))
unfolding type_at get intern_type intern new_types intern_all new
padded-struct = refl

size_of-padded : size_of 2 padded 14 ≡ done 16
unfolding type_at get intern_type intern new_types intern_all new size_and_align layout_from
    align_up
size_of-padded = refl

field_offset-padded : field_offset 1 padded 14 1 ≡ done 8
unfolding type_at get intern_type intern new_types intern_all new size_and_align field_offset
    offset_from align_up
field_offset-padded = refl

field_offset-inside_example :
    (start : ℕ) × (size : ℕ) × (align : ℕ) × (field_offset 1 padded 14 1 ≡ done start)
    × (size_of 1 padded 5 ≡ done size)
    × (align_of 1 padded 5 ≡ done align)
    × (start % align ≡ 0)
    × (start + size ≤ 16)
field_offset-inside_example =
    field_offset-inside 1 padded 14 (2 ∷ 5 ∷ []) 16 padded-struct size_of-padded 1 5 refl

field_offset-apart_example :
    (start : ℕ) × (size : ℕ) × (start' : ℕ) × (field_offset 1 padded 14 0 ≡ done start)
    × (size_of 1 padded 2 ≡ done size)
    × (field_offset 1 padded 14 1 ≡ done start')
    × (start + size ≤ start')
field_offset-apart_example =
    field_offset-apart 1 padded 14 (2 ∷ 5 ∷ []) 16 padded-struct size_of-padded 0 1 2 5
      (omega arith) refl refl

size_of-Ends_example :
    Ends (align_of 15 sample.types 14)
    × Ends (size_of 15 sample.types 14)
    × Ends (check_supported 15 sample.types 14)
unfolding intern_type strip_spans
size_of-Ends_example =
    size_of-Ends 15 sample.types 14
      (read-IsAccepted sample_file (strip_spans sample) sample_accepted).types (omega arith)
