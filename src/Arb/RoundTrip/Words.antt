-- ===== src/Arb/RoundTrip/Words.antt =====
-- Words of fixed size: what `Writer::u16` .. `Writer::u128` append (src/binary/writer.rs) is what
-- `Cursor::u16` .. `Cursor::u128` take (src/binary/reader.rs).
use astronomy.Prelude.{ℕ, ◌<◌, ◌^◌, ◌≡◌, refl, List, ◌++◌, some, arith, length, String}
use astronomy.Arb.Bytes.{to_le_bytes, length-to_le_bytes}
use astronomy.Arb.Writer
use astronomy.Arb.Writer.{Writer}
use astronomy.Arb.Cursor.{Reader, word, u16, u32, u64, u128}
use astronomy.Arb.Codec.{Reads}
use astronomy.Arb.Codec.Words.{Reads-word}

-- `w` never panics and appends `n` bytes, which `r` reads as `v` and consumes.
abbrev pub IsFixed : ℕ → Writer → Reader ℕ → ℕ → Type 0
IsFixed n w r v =
    (bs : List ℕ) × (length bs ≡ n) × ((out : List ℕ) → w out ≡ some (out ++ bs)) × Reads r bs v

word-IsFixed :
    (n v : ℕ) (what : String)
    → v < 256 ^ n
    → IsFixed n (Writer.bytes (to_le_bytes n v)) (word n what) v
unfolding Writer.bytes
word-IsFixed n v what h =
    (to_le_bytes n v, length-to_le_bytes n v, λ out. refl, Reads-word n v what h)

-- The writers of 16, 32, 64 and 128 bit words never panic and append 2, 4, 8 and 16 bytes to whatever was written before; wherever these bytes are next, the cursor's readers of those widths take just them and give the word back, where it is in the range of its width.
pub words-AreFixed :
    (what : String) (a b c d : ℕ)
    → a < 2 ^ 16
    → b < 2 ^ 32
    → c < 2 ^ 64
    → d < 2 ^ 128
    → IsFixed 2 (Writer.u16 a) (u16 what) a
      × IsFixed 4 (Writer.u32 b) (u32 what) b
      × IsFixed 8 (Writer.u64 c) (u64 what) c
      × IsFixed 16 (Writer.u128 d) (u128 what) d
unfolding Writer.u16 Writer.u32 Writer.u64 Writer.u128 u16 u32 u64 u128
words-AreFixed what a b c d ha hb hc hd = (
  word-IsFixed 2 a what (omega arith),
  word-IsFixed 4 b what (omega arith),
  word-IsFixed 8 c what (omega arith),
  word-IsFixed 16 d what (omega arith),
)
