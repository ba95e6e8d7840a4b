-- ===== src/Arb/RoundTrip/Patches.antt =====
-- What the encoder appends for a section (`Writer::section`, src/binary/writer.rs): its length is patched in front of its body.
use astronomy.Prelude.{
  ℕ, ◌+◌, ◌-◌, ◌≤◌, ◌≡◌, sym, ap, ◌∙◌, List, ◌++◌, none, some, length, take, drop, length-append,
  length-drop, length-take, take-append_self, drop-append_self, drop-drop, append_assoc, arith,
  Option-cases, inl, inr,
}
use mathlib.Core.Path.{ap₂}
use mathlib.Core.Option.{some-injective}
use astronomy.Prelude.Eq.{nat_eq}
use astronomy.Arb.Bytes.{to_le_bytes, length-to_le_bytes}
use astronomy.Arb.Writer
use astronomy.Arb.Writer.{Writer, ◌>>◌, copy_from_slice}

copy_from_slice_lem :
    (pre mid post patch : List ℕ)
    → length mid ≡ length patch
    → copy_from_slice (pre ++ (mid ++ post)) (length pre) patch ≡ pre ++ (patch ++ post)
unfolding copy_from_slice
copy_from_slice_lem pre mid post patch e =
    let cut : drop (length pre + length patch) (pre ++ (mid ++ post)) ≡ post =
      sym (drop-drop (length patch) (length pre) (pre ++ (mid ++ post)))
      ∙ ap (drop (length patch)) (drop-append_self pre (mid ++ post))
      ∙ ap (λ n. drop n (mid ++ post)) (sym e)
      ∙ drop-append_self mid post in
    rw (take-append_self pre (mid ++ post)) (rw cut)

length-copy_from_slice :
    (out : List ℕ) (at : ℕ) (patch : List ℕ) → length out ≤ length (copy_from_slice out at patch)
unfolding copy_from_slice
length-copy_from_slice out at patch =
    let back = drop (at + length patch) out in
    omega (
      arith,
      length-append (take at out) (patch ++ back),
      length-append patch back,
      length-take at out,
      length-drop (at + length patch) out,
    )

section_writes :
    (tag : List ℕ) (w : Writer) (out out' : List ℕ)
    → Writer.section tag w out ≡ some out'
    → (written : List ℕ) × (w ((out ++ tag) ++ to_le_bytes 8 0) ≡ some written)
      × (out'
          ≡ copy_from_slice written
              (length (out ++ tag))
              (to_le_bytes 8 (length written - (length (out ++ tag) + 8))))
unfolding Writer.section Writer.bytes Writer.u64 ◌>>◌
section_writes tag w out out' h = elim (Option-cases (w ((out ++ tag) ++ to_le_bytes 8 0))) [
  | inl e ↦ absurd (let q : none ≡ some out' = rw e at h in cc)
  | inr (written, e) ↦
      (written, e, let q : some _ ≡ some out' = rw e at h in sym (some-injective _ _ q))
]

-- What a section's writer appends, where its body appends `bs`.
pub section_appends :
    (tag : List ℕ) (w : Writer) (out out' : List ℕ)
    → Writer.section tag w out ≡ some out'
    → (P : List ℕ → Type 0)
    → ((written : List ℕ)
        → w ((out ++ tag) ++ to_le_bytes 8 0) ≡ some written
        → length written ≤ length out'
        → (bs : List ℕ) × (written ≡ ((out ++ tag) ++ to_le_bytes 8 0) ++ bs) × P bs)
    → (bs : List ℕ) × (out' ≡ out ++ (tag ++ (to_le_bytes 8 (length bs) ++ bs)))
      × (length bs ≤ length out')
      × P bs
section_appends tag w out out' h P inner =
    let (written, body, patched) = section_writes tag w out out' h in
    let head = out ++ tag in
    let zeros = to_le_bytes 8 0 in
    let grown =
      length-copy_from_slice written (length head)
        (to_le_bytes 8 (length written - (length head + 8))) in
    let (bs, eq, holds) = inner written body (omega (arith, ap length patched, grown)) in
    let size = to_le_bytes 8 (length bs) in
    let fits : length written ≡ length head + 8 + length bs = omega (
      arith,
      ap length eq,
      length-append (head ++ zeros) bs,
      length-append head zeros,
      length-to_le_bytes 8 0,
    ) in
    let count : length written - (length head + 8) ≡ length bs = omega arith in
    (
      bs,
      patched
          ∙ ap₂ (λ l k. copy_from_slice l (length head) (to_le_bytes 8 k))
              (eq ∙ append_assoc head zeros bs) count
          ∙ copy_from_slice_lem head zeros bs size
              (length-to_le_bytes 8 0 ∙ sym (length-to_le_bytes 8 (length bs)))
          ∙ append_assoc out tag (size ++ bs),
      omega (arith, ap length patched, grown),
      holds,
    )
