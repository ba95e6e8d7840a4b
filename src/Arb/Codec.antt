-- ===== src/Arb/Codec.antt =====
-- The relation between an encoder and a decoder of `.arb` that the round trip is built from: what
-- the encoder appends, the decoder reads back, and leaves what follows.
pub mod Words
pub mod Lists
use astronomy.Prelude.{
  ℕ, ◌+◌, ◌≤◌, ◌<◌, ◌^◌, ◌≡◌, refl, sym, ap, ◌∙◌, List, [], ◌++◌, some, none, arith, length, drop,
  length-append, drop-append_self, drop-drop, append_assoc, append-nil, subst, Option-cases, inl,
  inr,
}
use mathlib.Core.List.{append_cancel_left}
use astronomy.Arb.Errors.{ok}
use astronomy.Arb.Writer.{Writer, skip, ◌>>◌, and_then}
use astronomy.Arb.Cursor.{Cursor, Reader, pure, ◌>>=◌, offset}

pub advance : Cursor → ℕ → Cursor
advance c n = record c { pos = c.pos + n }

-- Where `bs` is next, `r` returns `a` and consumes just `bs`.
pub record Reads {ℓ} {A : Type ℓ} (r : Reader A) (bs : List ℕ) (a : A) : Type ℓ where
  pub from :
      (c : Cursor) (rest : List ℕ)
      → drop c.pos c.bytes ≡ bs ++ rest
      → r c ≡ ok (a, record c { pos = c.pos + length bs })

-- If the encoder does not panic, and the buffer fits the address space, it appends bytes, `lo` at least, which `r` reads back as `a`.
pub record RoundTrip {ℓ} {A : Type ℓ} (lo : ℕ) (w : Writer) (r : Reader A) (a : A) : Type ℓ where
  pub run :
      (out out' : List ℕ)
      → w out ≡ some out'
      → length out' < 2 ^ 64
      → (bs : List ℕ) × (out' ≡ out ++ bs) × (lo ≤ length bs) × Reads r bs a

pub drop_next :
    (bs rest all : List ℕ) (pos : ℕ) → drop pos all ≡ bs ++ rest → drop (pos + length bs) all ≡ rest
drop_next bs rest all pos h =
    sym (drop-drop (length bs) pos all) ∙ ap (drop (length bs)) h ∙ drop-append_self bs rest

module _ {ℓ κ} {A : Type ℓ} {B : Type κ} where
  pub Reads-bind :
      (r : Reader A) (f : A → Reader B) (xs ys : List ℕ) (a : A) (b : B)
      → Reads r xs a
      → Reads (f a) ys b
      → Reads (r >>= f) (xs ++ ys) b
  unfolding ◌>>=◌
  Reads-bind r f xs ys a b p q = record {
    from = λ c rest h.
        let next : drop c.pos c.bytes ≡ xs ++ (ys ++ rest) = h ∙ append_assoc xs ys rest in
        rw (p.from c (ys ++ rest) next) (
          rw
            (q.from (record c { pos = c.pos + length xs }) rest
              (drop_next xs (ys ++ rest) c.bytes c.pos next))
            (ap (λ (n : ℕ). ok (b, record c { pos = n })) (omega (arith, length-append xs ys))));
  }

  -- One field after another.
  pub RoundTrip-bind :
      (f : A → Reader B) {l k : ℕ} {v w : Writer} {r : Reader A} {a : A} {b : B}
      → RoundTrip l v r a
      → RoundTrip k w (f a) b
      → RoundTrip (l + k) (v >> w) (r >>= f) b
  unfolding ◌>>◌
  RoundTrip-bind f {l} {k} {v} {w} {r} {a} {b} p q = record {
    run = λ out out' h small. elim (Option-cases (v out)) [
      | inl e ↦ absurd (let q : none ≡ some out' = rw e at h in cc)
      | inr (mid, e) ↦
          let (ys, ey, ly, ry) = q.run mid out' (rw e at h) small in
          let (xs, ex, lx, rx) =
            p.run out mid e (omega (arith, ap length ey, length-append mid ys)) in
          (
            xs ++ ys,
            ey ∙ ap (λ t. t ++ ys) ex ∙ append_assoc out xs ys,
            omega (arith, length-append xs ys),
            Reads-bind r f xs ys a b rx ry,
          )
    ];
  }

  -- The last field, and what is built of the fields.
  pub RoundTrip-map :
      {l : ℕ} {w : Writer} {r : Reader A} (g : A → B) {a : A}
      → RoundTrip l w r a
      → RoundTrip l w (r >>= λ x. pure (g x)) (g a)
  unfolding ◌>>=◌ pure
  RoundTrip-map g p = record {
    run = λ out out' h small.
        let (bs, eq, lb, reads) = p.run out out' h small in
        (bs, eq, lb, record { from = λ c rest n. rw (reads.from c rest n) });
  }

  -- A field that alone says what is built.
  pub RoundTrip-tag :
      (f : A → Reader B) {l : ℕ} {w : Writer} {r : Reader A} {a : A} {b : B}
      → RoundTrip l w r a
      → f a ≡ pure b
      → RoundTrip l w (r >>= f) b
  unfolding ◌>>=◌ pure
  RoundTrip-tag f p e = record {
    run = λ out out' h small.
        let (bs, eq, lb, reads) = p.run out out' h small in
        (
          bs,
          eq,
          lb,
          record {
            from = λ c rest n.
                rw (reads.from c rest n) (ap (λ g. g (record c { pos = c.pos + length bs })) e);
          },
        );
  }

  -- A check that passes.
  pub RoundTrip-known :
      (f : A → Reader B) {l : ℕ} {w : Writer} {r : Reader A} {a : A} {b : B}
      → r ≡ pure a
      → RoundTrip l w (f a) b
      → RoundTrip l w (r >>= f) b
  unfolding ◌>>=◌ pure
  RoundTrip-known f {l} {w} {r} {a} {b} e p =
      subst (λ (t : Reader A). RoundTrip l w (t >>= f) b) (sym e) p

module _ {ℓ} {A : Type ℓ} where
  -- Readers that differ by a number, and all read back what `w` writes, read the same bytes.
  pub RoundTrip-uniform :
      {l : ℕ} {w : Writer} {f : ℕ → Reader A} {a : A}
      → ((n : ℕ) → RoundTrip l w (f n) a)
      → (out out' : List ℕ) → w out ≡ some out'
      → length out' < 2 ^ 64
      → (bs : List ℕ) × (out' ≡ out ++ bs) × (l ≤ length bs) × ((n : ℕ) → Reads (f n) bs a)
  RoundTrip-uniform {f} {a} p out out' h small =
      let (bs, eq, lb, _) = (p 0).run out out' h small in
      (
        bs,
        eq,
        lb,
        λ n.
            let (bs', eq', _, reads) = (p n).run out out' h small in
            subst (λ t. Reads (f n) t a) (append_cancel_left out _ _ (sym eq' ∙ eq)) reads,
      )

  -- An offset that the reader keeps for its error messages changes nothing.
  pub RoundTrip-offset :
      {l : ℕ} {w : Writer} {f : ℕ → Reader A} {a : A}
      → ((n : ℕ) → RoundTrip l w (f n) a)
      → RoundTrip l w (offset >>= f) a
  unfolding ◌>>=◌ offset
  RoundTrip-offset {f} p = record {
    run = λ out out' h small.
        let (bs, eq, lb, reads) = RoundTrip-uniform p out out' h small in
        (bs, eq, lb, record { from = λ c. (reads (c.base + c.pos)).from c });
  }

  pub RoundTrip-skip : (a : A) → RoundTrip 0 skip (pure a) a
  unfolding skip pure
  RoundTrip-skip a = record {
    run = λ out out' h small. (
      [],
      ground (arith, append-nil out),
      omega arith,
      record { from = λ c rest n. ap (λ (k : ℕ). ok (a, record c { pos = k })) (omega arith) },
    );
  }

  pub RoundTrip-weaken :
      (l : ℕ) {k : ℕ} {w : Writer} {r : Reader A} {a : A}
      → RoundTrip k w r a
      → l ≤ k
      → RoundTrip l w r a
  RoundTrip-weaken l p h = record {
    run = λ out out' e small.
        let (bs, eq, lb, reads) = p.run out out' e small in (bs, eq, omega arith, reads);
  }
