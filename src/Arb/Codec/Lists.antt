-- ===== src/Arb/Codec/Lists.antt =====
-- Counted lists: the length check of the decoder passes on what the encoder wrote.
use astronomy.Prelude.{
  ℕ, ◌+◌, ◌*◌, ◌<◌, ◌≤◌, ◌^◌, ◌≡◌, refl, ap, ◌∙◌, List, [], ◌∷◌, ◌++◌, none, some, arith, length,
  drop, length-append, String, ltb, ltb→lt, ltb-false, append_assoc, Bool-cases, inl, inr, All, map,
  Option-cases, subst,
}
use mathlib.Core.List.{map-id}
use astronomy.Arb.Bytes.{IsU32, to_le_bytes, length-to_le_bytes}
use astronomy.Arb.Errors.{ok}
use astronomy.Arb.Writer
use astronomy.Arb.Writer.{Writer, ◌>>◌, len, each}
use astronomy.Arb.Cursor
use astronomy.Arb.Cursor.{
  Reader, pure, ◌>>=◌, offset, remaining, take, word, u32, fits_in, count, repeat, list_of, ids,
  blob, values, saturating_mul,
}
use astronomy.Arb.Codec.{
  Reads, RoundTrip, RoundTrip-bind, RoundTrip-map, RoundTrip-skip, RoundTrip-weaken, drop_next,
}
use astronomy.Arb.Codec.Words.{Reads-word, Reads-take, RoundTrip-u32, RoundTrip-bytes, length_left}

Reads-fits_in :
    (at min_len n : ℕ) (what : String) (c : Cursor.Cursor)
    → n * min_len ≤ remaining c
    → fits_in at min_len what n c ≡ ok (n, c)
unfolding fits_in
Reads-fits_in at min_len n what c h =
    rw (ltb-false (remaining c) (saturating_mul n min_len) (omega arith))

len_writes :
    (n : ℕ) (out out' : List ℕ)
    → len n out ≡ some out'
    → (n < 2 ^ 32) × (out' ≡ out ++ to_le_bytes 4 n)
unfolding len Writer.u32 Writer.panic Writer.bytes
len_writes n out out' h = elim (Bool-cases (ltb n (2 ^ 32))) [
  | inl e ↦
      (ltb→lt n (2 ^ 32) e, (let q : some (out ++ to_le_bytes 4 n) ≡ some out' = rw e at h in cc))
  | inr e ↦ absurd (let q : none ≡ some out' = rw e at h in cc)
]

module _ {ℓ} {A : Type ℓ} where
  Reads-count :
      (min_len n : ℕ) (what : String) (f : ℕ → Reader A) (ys : List ℕ) (b : A)
      → n < 2 ^ 32
      → n * min_len ≤ length ys
      → Reads (f n) ys b
      → Reads (count min_len what >>= f) (to_le_bytes 4 n ++ ys) b
  unfolding ◌>>=◌ count offset u32
  Reads-count min_len n what f ys b hn room p = record {
    from = λ c rest h.
        let next : drop c.pos c.bytes ≡ to_le_bytes 4 n ++ (ys ++ rest) =
          h ∙ append_assoc (to_le_bytes 4 n) ys rest in
        let c' = record c { pos = c.pos + length (to_le_bytes 4 n) } in
        let after = drop_next (to_le_bytes 4 n) (ys ++ rest) c.bytes c.pos next in
        rw ((Reads-word 4 n what (omega arith)).from c (ys ++ rest) next) (
          rw
            (Reads-fits_in (c.base + c.pos) min_len n what c'
              (omega (arith, length_left c' ys rest after)))
            (p.from c' rest after
              ∙ ap (λ (k : ℕ). ok (b, record c { pos = k }))
                  (omega (arith, length-append (to_le_bytes 4 n) ys))));
  }

  -- A length, and what the decoder does with it, where the bytes that follow can hold so many.
  pub RoundTrip-count :
      (min_len : ℕ) (what : String) (f : ℕ → Reader A) {lo n : ℕ} {w : Writer} {a : A}
      → n * min_len ≤ lo
      → RoundTrip lo w (f n) a
      → RoundTrip (4 + lo) (len n >> w) (count min_len what >>= f) a
  unfolding ◌>>◌
  RoundTrip-count min_len what f {n} {a} room p = record {
    run = λ out out' h small. elim (Option-cases (len n out)) [
      | inl e ↦ absurd (let q : none ≡ some out' = rw e at h in cc)
      | inr (mid, e) ↦
          let (hn, em) = len_writes n out mid e in
          let (ys, ey, ly, reads) = p.run mid out' (rw e at h) small in
          (
            to_le_bytes 4 n ++ ys,
            ey ∙ ap (λ t. t ++ ys) em ∙ append_assoc out (to_le_bytes 4 n) ys,
            omega (arith, length-append (to_le_bytes 4 n) ys, length-to_le_bytes 4 n),
            Reads-count min_len n what f ys a hn (omega arith) reads,
          )
    ];
  }

module _ {A B : Type 0} (P : A → Type 0) (lo : ℕ) (write : A → Writer) (read : Reader B)
    (view : A → B) where
  RoundTrip-each :
      ((x : A) → P x → RoundTrip lo (write x) read (view x))
      → (xs : List A) → All P xs
      → RoundTrip (length xs * lo) (each write xs) (repeat (length xs) read) (map view xs)
  unfolding each repeat
  RoundTrip-each one [] h = RoundTrip-weaken _ (RoundTrip-skip []) (omega arith)
  RoundTrip-each one (x ∷ xs) (hx, hxs) =
      RoundTrip-weaken _
        (RoundTrip-bind _ (one x hx)
          (RoundTrip-map (λ (ys : List B). view x ∷ ys) (RoundTrip-each one xs hxs)))
        (omega arith)

  -- A counted list, entry by entry.
  pub RoundTrip-list :
      (what : String)
      → ((x : A) → P x → RoundTrip lo (write x) read (view x))
      → (xs : List A) → All P xs
      → RoundTrip 4 (len (length xs) >> each write xs) (list_of lo what read) (map view xs)
  unfolding list_of
  RoundTrip-list what one xs h =
      RoundTrip-weaken 4 (RoundTrip-count lo what _ (omega arith) (RoundTrip-each one xs h))
        (omega arith)

-- The same, where entries are read back as they are.
pub RoundTrip-list_self :
    {A : Type 0} (P : A → Type 0) (lo : ℕ) (write : A → Writer) (read : Reader A) (what : String)
    → ((x : A) → P x → RoundTrip lo (write x) read x)
    → (xs : List A) → All P xs
    → RoundTrip 4 (len (length xs) >> each write xs) (list_of lo what read) xs
RoundTrip-list_self P lo write read what one xs h =
    subst (RoundTrip 4 (len (length xs) >> each write xs) (list_of lo what read)) (map-id xs)
      (RoundTrip-list P lo write read (λ x. x) what one xs h)

pub RoundTrip-ids :
    (xs : List ℕ) (what : String) → All IsU32 xs → RoundTrip 4 (Writer.ids xs) (ids what) xs
unfolding Writer.ids ids
RoundTrip-ids xs what h =
    RoundTrip-list_self IsU32 4 Writer.u32 (u32 what) what (λ x hx. RoundTrip-u32 x what hx) xs h

pub RoundTrip-values :
    (xs : List ℕ) (what : String) → All IsU32 xs → RoundTrip 4 (Writer.ids xs) (values what) xs
unfolding values
RoundTrip-values = RoundTrip-ids

pub RoundTrip-blob : (b : List ℕ) (what : String) → RoundTrip 4 (Writer.blob b) (blob what) b
unfolding Writer.blob blob
RoundTrip-blob b what =
    RoundTrip-weaken 4
      (RoundTrip-count 1 what _ (omega arith)
        (RoundTrip-bytes b _ _ (Reads-take b (length b) what refl)))
      (omega arith)
