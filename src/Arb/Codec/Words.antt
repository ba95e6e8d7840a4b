-- ===== src/Arb/Codec/Words.antt =====
-- The fields of fixed size: what the encoder's word writers append, the cursor's readers take back.
use astronomy.Prelude.{
  ℕ, ◌+◌, ◌<◌, ◌^◌, ◌≡◌, refl, ap, Bool, true, false, List, [], ◌∷◌, ◌++◌, Option, none, some,
  arith, length, drop, take-append_self, length-append, length-drop, String, ltb-false, subst,
}
use astronomy.Arb.Bytes.{IsOptU32, to_le_bytes, length-to_le_bytes, from_le_bytes-to_le_bytes}
use astronomy.Arb.Writer
use astronomy.Arb.Writer.{Writer}
use astronomy.Arb.Cursor
use astronomy.Arb.Cursor.{
  Reader, pure, ◌>>=◌, offset, remaining, take, word, u8, u16, u32, u64, u128, bool, opt_u32,
}
use astronomy.Arb.Codec.{
  Reads, RoundTrip, RoundTrip-bind, RoundTrip-map, RoundTrip-offset, RoundTrip-tag,
  RoundTrip-weaken,
}

pub length_left :
    (c : Cursor.Cursor) (bs rest : List ℕ)
    → drop c.pos c.bytes ≡ bs ++ rest
    → remaining c ≡ length bs + length rest
unfolding remaining
length_left c bs rest h =
    omega (arith, length-drop c.pos c.bytes, ap length h, length-append bs rest)

pub Reads-take : (bs : List ℕ) (n : ℕ) (what : String) → length bs ≡ n → Reads (take n what) bs bs
unfolding take
Reads-take bs n what e = record {
  from = λ c rest h.
      rw (ltb-false (remaining c) n (omega (arith, length_left c bs rest h)))
        (rw (h, ← e) (rw (take-append_self bs rest)));
}

pub Reads-word : (n v : ℕ) (what : String) → v < 256 ^ n → Reads (word n what) (to_le_bytes n v) v
unfolding word ◌>>=◌ pure
Reads-word n v what h = record {
  from = λ c rest e.
      rw ((Reads-take (to_le_bytes n v) n what (length-to_le_bytes n v)).from c rest e)
        (rw (from_le_bytes-to_le_bytes n v h));
}

pub RoundTrip-bytes {ℓ} :
    {A : Type ℓ} (bs : List ℕ) (r : Reader A) (a : A)
    → Reads r bs a
    → RoundTrip (length bs) (Writer.bytes bs) r a
unfolding Writer.bytes
RoundTrip-bytes bs r a reads = record {
  run = λ out out' h small. (bs, ground arith, omega arith, reads);
}

RoundTrip-word :
    (n v : ℕ) (what : String)
    → v < 256 ^ n
    → RoundTrip n (Writer.bytes (to_le_bytes n v)) (word n what) v
RoundTrip-word n v what h =
    subst (λ k. RoundTrip k (Writer.bytes (to_le_bytes n v)) (word n what) v)
      (length-to_le_bytes n v)
      (RoundTrip-bytes (to_le_bytes n v) (word n what) v (Reads-word n v what h))

pub RoundTrip-u8 : (v : ℕ) (what : String) → RoundTrip 1 (Writer.u8 v) (u8 what) v
unfolding Writer.u8 u8 ◌>>=◌ pure Writer.bytes
RoundTrip-u8 v what =
    RoundTrip-bytes (v ∷ []) (u8 what) v
      (record { from = λ c rest e. rw ((Reads-take (v ∷ []) 1 what refl).from c rest e) })

pub RoundTrip-u16 : (v : ℕ) (what : String) → v < 2 ^ 16 → RoundTrip 2 (Writer.u16 v) (u16 what) v
unfolding Writer.u16 u16
RoundTrip-u16 v what h = RoundTrip-word 2 v what (omega arith)

pub RoundTrip-u32 : (v : ℕ) (what : String) → v < 2 ^ 32 → RoundTrip 4 (Writer.u32 v) (u32 what) v
unfolding Writer.u32 u32
RoundTrip-u32 v what h = RoundTrip-word 4 v what (omega arith)

pub RoundTrip-u64 : (v : ℕ) (what : String) → v < 2 ^ 64 → RoundTrip 8 (Writer.u64 v) (u64 what) v
unfolding Writer.u64 u64
RoundTrip-u64 v what h = RoundTrip-word 8 v what (omega arith)

pub RoundTrip-u128 :
    (v : ℕ) (what : String) → v < 2 ^ 128 → RoundTrip 16 (Writer.u128 v) (u128 what) v
unfolding Writer.u128 u128
RoundTrip-u128 v what h = RoundTrip-word 16 v what (omega arith)

pub RoundTrip-bool : (v : Bool) (what : String) → RoundTrip 1 (Writer.bool v) (bool what) v
unfolding Writer.bool bool
RoundTrip-bool true what = RoundTrip-offset λ n. RoundTrip-tag _ (RoundTrip-u8 1 what) refl
RoundTrip-bool false what = RoundTrip-offset λ n. RoundTrip-tag _ (RoundTrip-u8 0 what) refl

pub RoundTrip-opt_u32 :
    (v : Option ℕ) (what : String) → IsOptU32 v → RoundTrip 1 (Writer.opt_u32 v) (opt_u32 what) v
unfolding Writer.opt_u32 opt_u32
RoundTrip-opt_u32 none what h = RoundTrip-offset λ n. RoundTrip-tag _ (RoundTrip-u8 0 what) refl
RoundTrip-opt_u32 (some v) what h =
    RoundTrip-weaken 1
      (RoundTrip-offset
        λ n. RoundTrip-bind _ (RoundTrip-u8 1 what) (RoundTrip-map some (RoundTrip-u32 v what h)))
      (omega arith)
