-- ===== src/Arb/Decode/Utf8.antt =====
-- `std::str::from_utf8`, as far as `read_symbols` (src/binary/reader.rs) uses it: whether bytes are
-- well-formed UTF-8 (RFC 3629).
use astronomy.Prelude.{
  ℕ, Bool, true, false, ◌&&◌, List, [], ◌∷◌, Option, none, some, leb, if◌then◌else◌,
}

-- The ranges of the bytes that must follow a first byte.
abbrev tail_byte : ℕ × ℕ
tail_byte = (0x80, 0xbf)

continuation : ℕ → Option (List (ℕ × ℕ))
continuation b =
    if leb b 0x7f
    then some []
    else if leb 0xc2 b && leb b 0xdf
    then some (tail_byte ∷ [])
    else if leb 0xe0 b && leb b 0xe0
    then some ((0xa0, 0xbf) ∷ tail_byte ∷ [])
    else if leb 0xed b && leb b 0xed
    then some ((0x80, 0x9f) ∷ tail_byte ∷ [])
    else if leb 0xe1 b && leb b 0xef
    then some (tail_byte ∷ tail_byte ∷ [])
    else if leb 0xf0 b && leb b 0xf0
    then some ((0x90, 0xbf) ∷ tail_byte ∷ tail_byte ∷ [])
    else if leb 0xf1 b && leb b 0xf3
    then some (tail_byte ∷ tail_byte ∷ tail_byte ∷ [])
    else if leb 0xf4 b && leb b 0xf4
    then some ((0x80, 0x8f) ∷ tail_byte ∷ tail_byte ∷ [])
    else none

-- `pending` is what the character that is being read still wants.
utf8_from : List (ℕ × ℕ) → List ℕ → Bool
utf8_from [] [] = true
utf8_from (p ∷ ps) [] = false
utf8_from [] (b ∷ bs) = elim (continuation b) [ none ↦ false | some ps ↦ utf8_from ps bs ]
utf8_from ((lo, hi) ∷ ps) (b ∷ bs) = elim (leb lo b && leb b hi) [
  | true ↦ utf8_from ps bs
  | false ↦ false
]

unfoldable pub is_utf8 : List ℕ → Bool
unfolding utf8_from continuation
is_utf8 bytes = utf8_from [] bytes
