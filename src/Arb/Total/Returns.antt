-- ===== src/Arb/Total/Returns.antt =====
-- Writers that do not panic: the combinators of src/binary/writer.rs.
use astronomy.Prelude.{
  ℕ, suc, zero, ◌+◌, ◌-◌, ◌%◌, ◌<◌, ◌≤◌, ◌^◌, ◌≡◌, ap, ◌∙◌, refl, Bool, List, [], ◌∷◌, ◌++◌, Option,
  none, some, length, All, All-get_elem?, get_elem?, lt→ltb, arith,
}
use astronomy.Ir.Interner.{Store, get}
use astronomy.Arb.Bytes.{to_le_bytes}
use astronomy.Arb.Writer
use astronomy.Arb.Writer.{Writer, ◌>>◌, and_then, copy_from_slice}
use astronomy.Arb.Encode.{write}
use astronomy.Arb.Total.{IsShort}

-- The writer does not panic, whatever the buffer holds.
pub record Returns (w : Writer) : Type 0 where
  pub on : (out : List ℕ) → (out' : List ℕ) × (w out ≡ some out')

pub Returns-bytes : (bs : List ℕ) → Returns (Writer.bytes bs)
unfolding Writer.bytes
Returns-bytes bs = record { on = λ out. (out ++ bs, refl) }

pub Returns-skip : Returns Writer.skip
unfolding Writer.skip
Returns-skip = record { on = λ out. (out, refl) }

pub Returns-then : {v w : Writer} → Returns v → Returns w → Returns (v >> w)
unfolding ◌>>◌
Returns-then {v} {w} p q = record {
  on = λ out.
      let (mid, e) = p.on out in let (out', e') = q.on mid in (out', ap (λ o. and_then o w) e ∙ e');
}

pub Returns-u8 : (v : ℕ) → Returns (Writer.u8 v)
unfolding Writer.u8
Returns-u8 v = Returns-bytes _

pub Returns-bool : (v : Bool) → Returns (Writer.bool v)
unfolding Writer.bool
Returns-bool v = Returns-u8 _

pub Returns-u16 : (v : ℕ) → Returns (Writer.u16 v)
unfolding Writer.u16
Returns-u16 v = Returns-bytes _

pub Returns-u32 : (v : ℕ) → Returns (Writer.u32 v)
unfolding Writer.u32
Returns-u32 v = Returns-bytes _

pub Returns-u64 : (v : ℕ) → Returns (Writer.u64 v)
unfolding Writer.u64
Returns-u64 v = Returns-bytes _

pub Returns-u128 : (v : ℕ) → Returns (Writer.u128 v)
unfolding Writer.u128
Returns-u128 v = Returns-bytes _

pub Returns-opt_u32 : (v : Option ℕ) → Returns (Writer.opt_u32 v)
unfolding Writer.opt_u32
Returns-opt_u32 none = Returns-u8 0
Returns-opt_u32 (some v) = Returns-then (Returns-u8 1) (Returns-u32 v)

pub Returns-len : (n : ℕ) → n < 2 ^ 32 → Returns (Writer.len n)
unfolding Writer.len
Returns-len n h = rw (lt→ltb n (2 ^ 32) h) (Returns-u32 n)

pub Returns-each {ℓ} :
    {A : Type ℓ} (P : A → Type 0) (write : A → Writer)
    → ((x : A) → P x → Returns (write x))
    → (xs : List A) → All P xs
    → Returns (Writer.each write xs)
unfolding Writer.each
Returns-each P write p [] h = Returns-skip
Returns-each P write p (x ∷ xs) (hx, hs) = Returns-then (p x hx) (Returns-each P write p xs hs)

-- A length and its entries.
pub Returns-list {ℓ} :
    {A : Type ℓ} (P : A → Type 0) (write : A → Writer)
    → ((x : A) → P x → Returns (write x))
    → (xs : List A) → IsShort xs
    → All P xs
    → Returns (Writer.len (length xs) >> Writer.each write xs)
Returns-list P write p xs short h =
    Returns-then (Returns-len (length xs) short) (Returns-each P write p xs h)

pub All-Unit {ℓ} : {A : Type ℓ} (xs : List A) → All (λ (x : A). Unit {0}) xs
All-Unit [] = tt
All-Unit (x ∷ xs) = (tt, All-Unit xs)

pub Returns-ids : (xs : List ℕ) → IsShort xs → Returns (Writer.ids xs)
unfolding Writer.ids
Returns-ids xs short =
    Returns-list (λ _. Unit {0}) Writer.u32 (λ x _. Returns-u32 x) xs short (All-Unit xs)

pub Returns-blob : (b : List ℕ) → IsShort b → Returns (Writer.blob b)
unfolding Writer.blob
Returns-blob b short = Returns-then (Returns-len (length b) short) (Returns-bytes b)

pub Returns-section : (tag : List ℕ) {w : Writer} → Returns w → Returns (Writer.section tag w)
unfolding Writer.section
Returns-section tag {w} p = record {
  on = λ out.
      let (mid, e) = (Returns-then (Returns-bytes tag) (Returns-then (Returns-u64 0) p)).on out in
      let at = length (out ++ tag) in
      let patched : Writer =
        λ t. some (copy_from_slice t at (to_le_bytes 8 (length t - (at + 8)))) in
      (
        copy_from_slice mid at (to_le_bytes 8 (length mid - (at + 8))),
        ap (λ o. and_then o patched) e,
      );
}

get-some : {A : Type 0} (xs : List A) (i : ℕ) → i < length xs → (x : A) × (get_elem? xs i ≡ some x)
get-some [] i h = absurd (omega arith)
get-some (x ∷ xs) zero h = (x, refl)
get-some (x ∷ xs) (suc i) h = get-some xs i (omega arith)

-- A loop over a table's ids finds each entry.
pub Returns-each_entry :
    {A : Type 0} (P : A → Type 0) (write : A → Writer)
    → ((x : A) → P x → Returns (write x))
    → (s : Store A) → All P s.entries
    → IsShort s.entries
    → (n start : ℕ) → start + n ≤ length s.entries
    → Returns (Writer.each_entry write s n start)
unfolding Writer.each_entry get
Returns-each_entry P write p s all short zero start h = Returns-skip
Returns-each_entry P write p s all short (suc n) start h =
    let (x, e) = get-some s.entries start (omega arith) in
    let at : start % 2 ^ 32 ≡ start = omega arith in
    Returns-then
      (rw (ap (get_elem? s.entries) at ∙ e) (p x (All-get_elem? P s.entries all start x e)))
      (Returns-each_entry P write p s all short n (start + 1) (omega arith))

pub Returns-table :
    {A : Type 0} (P : A → Type 0) (write : A → Writer)
    → ((x : A) → P x → Returns (write x))
    → (s : Store A) → IsShort s.entries
    → All P s.entries
    → Returns (Writer.len (length s.entries) >> Writer.each_entry write s (length s.entries) 0)
Returns-table P write p s short all =
    Returns-then (Returns-len (length s.entries) short)
      (Returns-each_entry P write p s all short (length s.entries) 0 (omega arith))
