-- ===== src/Arb/RoundTrip/Sections.antt =====
-- Sections: the length that is patched in front of a body is the one that the decoder cuts at.
use astronomy.Prelude.{
  ℕ, ◌+◌, ◌-◌, ◌<◌, ◌≤◌, ◌^◌, ◌≡◌, refl, sym, ap, ◌∙◌, List, [], ◌++◌, none, some, length, drop,
  length-append, append_assoc, append-nil, arith, Option-cases, inl, inr, ltb-false, ==_iff,
}
use astronomy.Prelude.Eq.{nat_eq, list_beq_iff}
use astronomy.Arb.Bytes.{to_le_bytes}
use astronomy.Arb.Errors.{ok}
use astronomy.Arb.Writer
use astronomy.Arb.Writer.{Writer, ◌>>◌, copy_from_slice}
use astronomy.Arb.Cursor.{
  Cursor, Reader, pure, ◌>>=◌, offset, remaining, is_empty, section, finish, found_tag,
  length_within, new, u64,
}
use astronomy.Arb.Codec.{Reads, RoundTrip, RoundTrip-uniform, drop_next}
use astronomy.Arb.Codec.Words.{Reads-take, Reads-word, length_left}
use astronomy.Arb.Decode.{in_section, finish_section}
use astronomy.Arb.RoundTrip.Patches.{section_appends}

found_tag_lem : (tag : List ℕ) (at : ℕ) (c : Cursor) → found_tag tag at (ok (tag, c)) ≡ ok (tag, c)
unfolding found_tag
found_tag_lem tag at c = rw ((list_beq_iff tag tag).1 refl)

length_within_lem :
    (tag : List ℕ) (at len : ℕ) (c : Cursor)
    → len ≤ remaining c
    → length_within tag at len c ≡ ok (tt, c)
unfolding length_within
length_within_lem tag at len c h = rw (ltb-false (remaining c) len h)

finish_used : (c : Cursor) → remaining c ≡ 0 → finish c ≡ ok tt
unfolding finish is_empty
finish_used c e = rw ((==_iff _ _).1 e)

-- The cursor over a section's body.
abbrev pub body_cursor : List ℕ → List ℕ → ℕ → Cursor
body_cursor tag bs base = record { bytes = bs; pos = 0; base = base; section = some tag }

-- On a body `bs` that stands at offset `base`, `r` returns `a base` and is at the end.
abbrev pub Consumes : {A : Type 0} → List ℕ → Reader A → List ℕ → (ℕ → A) → Type 0
Consumes tag r bs a =
    (base : ℕ)
    → r (body_cursor tag bs base)
      ≡ ok (a base, record (body_cursor tag bs base) { pos = 0 + length bs })

pub Consumes-of_Reads :
    {A : Type 0} (tag : List ℕ) (r : Reader A) (bs : List ℕ) (a : A)
    → Reads r bs a
    → Consumes tag r bs (λ _. a)
Consumes-of_Reads tag r bs a reads base =
    reads.from (body_cursor tag bs base) [] (sym (append-nil bs))

-- A section whose tag and length are in place: its body is what the reader is run on.
pub in_section_cut :
    {A : Type 0} (tag : List ℕ) (r : Reader A) (bs : List ℕ) (c : Cursor) (rest : List ℕ)
    → length tag ≡ 4
    → length bs < 2 ^ 64
    → drop c.pos c.bytes ≡ (tag ++ (to_le_bytes 8 (length bs) ++ bs)) ++ rest
    → in_section tag r c
      ≡ finish_section
          (record c { pos = c.pos + length (tag ++ (to_le_bytes 8 (length bs) ++ bs)) })
          (r (
            body_cursor tag bs
              (c.base + (c.pos + length tag + length (to_le_bytes 8 (length bs))))))
unfolding in_section section ◌>>=◌ offset pure u64 new
in_section_cut tag r bs c rest four small h =
    let size = to_le_bytes 8 (length bs) in
    let h1 : drop c.pos c.bytes ≡ tag ++ (size ++ (bs ++ rest)) =
      h ∙ append_assoc tag (size ++ bs) rest ∙ ap (λ t. tag ++ t) (append_assoc size bs rest) in
    let c1 = record c { pos = c.pos + length tag } in
    let h2 = drop_next tag (size ++ (bs ++ rest)) c.bytes c.pos h1 in
    let c2 = record c1 { pos = c1.pos + length size } in
    let h3 = drop_next size (bs ++ rest) c1.bytes c1.pos h2 in
    rw ((Reads-take tag 4 "section tag" four).from c (size ++ (bs ++ rest)) h1) (
      rw (found_tag_lem tag (c.base + c.pos) c1) (
        rw ((Reads-word 8 (length bs) "section length" (omega arith)).from c1 (bs ++ rest) h2) (
          rw
            (length_within_lem tag (c.base + c.pos) (length bs) c2
              (omega (arith, length_left c2 bs rest h3)))
            (rw ((Reads-take bs (length bs) "section body" refl).from c2 rest h3) (
              ap
                (λ (k : ℕ).
                  finish_section (record c { pos = k }) (r (body_cursor tag bs (c.base + c2.pos))))
                (omega (arith, length-append tag (size ++ bs), length-append size bs)))))))

module _ {A : Type 0} (tag : List ℕ) (four : length tag ≡ 4) (r : Reader A) (bs : List ℕ)
    (a : ℕ → A) (consumes : Consumes tag r bs a) where
  whole_body :
      (file : Cursor) (base : ℕ)
      → finish_section file (r (body_cursor tag bs base)) ≡ ok (a base, file)
  unfolding remaining
  whole_body file base =
      let t : Cursor = record (body_cursor tag bs base) { pos = 0 + length bs } in
      rw (consumes base) (
        rw (
          finish_used t (let z : length bs - (0 + length bs) ≡ 0 = omega arith in z),
          finish_section,
        ))

  in_section_lem :
      (c : Cursor) (rest : List ℕ)
      → length bs < 2 ^ 64
      → drop c.pos c.bytes ≡ (tag ++ (to_le_bytes 8 (length bs) ++ bs)) ++ rest
      → in_section tag r c
        ≡ ok (
          a (c.base + (c.pos + length tag + length (to_le_bytes 8 (length bs)))),
          record c { pos = c.pos + length (tag ++ (to_le_bytes 8 (length bs) ++ bs)) },
        )
  in_section_lem c rest small h =
      in_section_cut tag r bs c rest four small h
      ∙ whole_body (record c { pos = c.pos + length (tag ++ (to_le_bytes 8 (length bs) ++ bs)) })
          (c.base + (c.pos + length tag + length (to_le_bytes 8 (length bs))))

-- A section, read back with its body.
pub RoundTrip-section :
    {A : Type 0} {lo : ℕ} {w : Writer} {r : Reader A} {a : A} (tag : List ℕ)
    → length tag ≡ 4
    → RoundTrip lo w r a
    → RoundTrip 0 (Writer.section tag w) (in_section tag r) a
RoundTrip-section {w} {r} {a} tag four p = record {
  run = λ out out' h small.
      let (bs, eq, le, reads) =
        section_appends tag w out out' h (λ bs. Reads r bs a)
          (λ written body le.
            let (bs, eq, _, reads) = p.run _ written body (omega arith) in (bs, eq, reads)) in
      (
        tag ++ (to_le_bytes 8 (length bs) ++ bs),
        eq,
        omega arith,
        record {
          from = λ c rest n.
              in_section_lem tag four r bs (λ _. a) (Consumes-of_Reads tag r bs a reads) c rest
                (omega arith) n;
        },
      );
}

Reads-section_then :
    {A B : Type 0} (r : Reader A) (f : A → Reader B) (b : B) (tag : List ℕ) (a : ℕ → A)
    (bs ys : List ℕ)
    → length tag ≡ 4
    → length bs < 2 ^ 64
    → Consumes tag r bs a
    → ((at : ℕ) → Reads (f (a at)) ys b)
    → Reads (in_section tag r >>= f) ((tag ++ (to_le_bytes 8 (length bs) ++ bs)) ++ ys) b
unfolding ◌>>=◌
Reads-section_then r f b tag a bs ys four small consumes reads = record {
  from = λ c rest n.
      let xs = tag ++ (to_le_bytes 8 (length bs) ++ bs) in
      let n' : drop c.pos c.bytes ≡ xs ++ (ys ++ rest) = n ∙ append_assoc xs ys rest in
      rw (in_section_lem tag four r bs a consumes c (ys ++ rest) small n') (
        rw
          ((reads (c.base + (c.pos + length tag + length (to_le_bytes 8 (length bs))))).from
            (record c { pos = c.pos + length xs }) rest
            (drop_next xs (ys ++ rest) c.bytes c.pos n'))
          (ap (λ (k : ℕ). ok (b, record c { pos = k })) (omega (arith, length-append xs ys))));
}

-- A section whose value tells where it stood, before a reader that only reports that place.
pub RoundTrip-section_then :
    {A B : Type 0} {k : ℕ} {v w : Writer} (r : Reader A) (f : A → Reader B) {b : B} (tag : List ℕ)
    (a : ℕ → A)
    → length tag ≡ 4
    → ((out out' : List ℕ)
        → v out ≡ some out'
        → length out' < 2 ^ 64
        → (bs : List ℕ) × (out' ≡ out ++ bs) × Consumes tag r bs a)
    → ((at : ℕ) → RoundTrip k w (f (a at)) b)
    → RoundTrip k (Writer.section tag v >> w) (in_section tag r >>= f) b
unfolding ◌>>◌
RoundTrip-section_then {v} {w} r f {b} tag a four p q = record {
  run = λ out out' h small. elim (Option-cases (Writer.section tag v out)) [
    | inl e ↦ absurd (let z : none ≡ some out' = rw e at h in cc)
    | inr (mid, e) ↦
        let (ys, ey, ly, reads) = RoundTrip-uniform q mid out' (rw e at h) small in
        let shorter : length mid ≤ length out' =
          omega (arith, ap length ey, length-append mid ys) in
        let (bs, eq, le, consumes) =
          section_appends tag v out mid e (λ bs. Consumes tag r bs a)
            (λ written body le. p _ written body (omega arith)) in
        let xs = tag ++ (to_le_bytes 8 (length bs) ++ bs) in
        (
          xs ++ ys,
          ey ∙ ap (λ t. t ++ ys) eq ∙ append_assoc out xs ys,
          omega (arith, length-append xs ys),
          Reads-section_then r f b tag a bs ys four (omega arith) consumes reads,
        )
  ];
}
