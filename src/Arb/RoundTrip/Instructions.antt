-- ===== src/Arb/RoundTrip/Instructions.antt =====
-- Instructions and terminators, read back as they were written, less their source spans.
use astronomy.Prelude.{ℕ, ◌≡◌, refl, Option, none, some, arith, String, sym, subst}
use astronomy.Ir.Functions.{InstructionKind, Instruction, Terminator}
use astronomy.Arb.Bytes.{IsU32}
use astronomy.Arb.Writer
use astronomy.Arb.Writer.{◌>>◌}
use astronomy.Arb.Codec.{
  RoundTrip, RoundTrip-bind, RoundTrip-map, RoundTrip-tag, RoundTrip-offset, RoundTrip-weaken,
}
use astronomy.Arb.Codec.Words.{RoundTrip-u8, RoundTrip-u32, RoundTrip-opt_u32}
use astronomy.Arb.Codec.Lists.{RoundTrip-values}
use astronomy.Arb.Encodable.{strip_instruction, IsKind, IsInstruction, IsTerminator}
use astronomy.Arb.Encode.Functions as Encode
use astronomy.Arb.Encode.Functions.{binary, instruction_kind}
use astronomy.Arb.Decode.Instructions.{
  other_kind, read_kind, read_instruction_kind, read_instruction, read_branch, terminator_body,
  read_terminator, operands,
}

-- An opcode with two operands.
two :
    (op : ℕ) (make : ℕ → ℕ → InstructionKind) (first second : String) (a b : ℕ)
    → ((n : ℕ) → read_kind n op ≡ operands make first second)
    → IsU32 a × IsU32 b
    → RoundTrip 5 (binary op a b) read_instruction_kind (make a b)
unfolding read_instruction_kind
two op make first second a b e (ha, hb) =
    RoundTrip-weaken 5
      (RoundTrip-offset λ n. RoundTrip-bind _ (RoundTrip-u8 _ _) (
        subst (λ r. RoundTrip 8 (Writer.u32 a >> Writer.u32 b) r (make a b)) (sym (e n))
          (RoundTrip-bind _ (RoundTrip-u32 a _ ha)
            (RoundTrip-map (make a) (RoundTrip-u32 b _ hb)))))
      (omega arith)

-- An instruction whose operands fit `u32` is read back from what `write` appends for it, which is 5 bytes at least.
pub RoundTrip-kind :
    (k : InstructionKind) → IsKind k → RoundTrip 5 (instruction_kind k) read_instruction_kind k
unfolding instruction_kind read_instruction_kind read_kind other_kind
RoundTrip-kind (InstructionKind.const c) h =
    RoundTrip-offset
      λ n. RoundTrip-bind _ (RoundTrip-u8 _ _) (RoundTrip-map _ (RoundTrip-u32 c _ h))
RoundTrip-kind (InstructionKind.alloca t) h =
    RoundTrip-offset
      λ n. RoundTrip-bind _ (RoundTrip-u8 _ _) (RoundTrip-map _ (RoundTrip-u32 t _ h))
RoundTrip-kind (InstructionKind.add a b) h = two _ _ _ _ a b (λ n. refl) h
RoundTrip-kind (InstructionKind.sub a b) h = two _ _ _ _ a b (λ n. refl) h
RoundTrip-kind (InstructionKind.mul a b) h = two _ _ _ _ a b (λ n. refl) h
RoundTrip-kind (InstructionKind.div a b) h = two _ _ _ _ a b (λ n. refl) h
RoundTrip-kind (InstructionKind.rem a b) h = two _ _ _ _ a b (λ n. refl) h
RoundTrip-kind (InstructionKind.and a b) h = two _ _ _ _ a b (λ n. refl) h
RoundTrip-kind (InstructionKind.or a b) h = two _ _ _ _ a b (λ n. refl) h
RoundTrip-kind (InstructionKind.xor a b) h = two _ _ _ _ a b (λ n. refl) h
RoundTrip-kind (InstructionKind.shl a b) h = two _ _ _ _ a b (λ n. refl) h
RoundTrip-kind (InstructionKind.shr a b) h = two _ _ _ _ a b (λ n. refl) h
RoundTrip-kind (InstructionKind.eq a b) h = two _ _ _ _ a b (λ n. refl) h
RoundTrip-kind (InstructionKind.ne a b) h = two _ _ _ _ a b (λ n. refl) h
RoundTrip-kind (InstructionKind.lt a b) h = two _ _ _ _ a b (λ n. refl) h
RoundTrip-kind (InstructionKind.le a b) h = two _ _ _ _ a b (λ n. refl) h
RoundTrip-kind (InstructionKind.gt a b) h = two _ _ _ _ a b (λ n. refl) h
RoundTrip-kind (InstructionKind.ge a b) h = two _ _ _ _ a b (λ n. refl) h
RoundTrip-kind (InstructionKind.load a b) h = two _ _ _ _ a b (λ n. refl) h
RoundTrip-kind (InstructionKind.store a b) h = two _ _ _ _ a b (λ n. refl) h
RoundTrip-kind (InstructionKind.ptr_offset a b) h = two _ _ _ _ a b (λ n. refl) h
RoundTrip-kind (InstructionKind.ext a b) h = two _ _ _ _ a b (λ n. refl) h
RoundTrip-kind (InstructionKind.trunc a b) h = two _ _ _ _ a b (λ n. refl) h
RoundTrip-kind (InstructionKind.int_to_float a b) h = two _ _ _ _ a b (λ n. refl) h
RoundTrip-kind (InstructionKind.float_to_int a b) h = two _ _ _ _ a b (λ n. refl) h
RoundTrip-kind (InstructionKind.ptr_cast a b) h = two _ _ _ _ a b (λ n. refl) h
RoundTrip-kind (InstructionKind.extract a b) h = two _ _ _ _ a b (λ n. refl) h
RoundTrip-kind (InstructionKind.call a l) (ha, hl) =
    RoundTrip-weaken 5
      (RoundTrip-offset λ n.
        RoundTrip-bind _ (RoundTrip-u8 _ _)
          (RoundTrip-bind _ (RoundTrip-u32 a _ ha) (RoundTrip-map _ (RoundTrip-values l _ hl))))
      (omega arith)
RoundTrip-kind (InstructionKind.construct a l) (ha, hl) =
    RoundTrip-weaken 5
      (RoundTrip-offset λ n.
        RoundTrip-bind _ (RoundTrip-u8 _ _)
          (RoundTrip-bind _ (RoundTrip-u32 a _ ha) (RoundTrip-map _ (RoundTrip-values l _ hl))))
      (omega arith)
RoundTrip-kind (InstructionKind.insert a i v) (ha, hi, hv) =
    RoundTrip-weaken 5
      (RoundTrip-offset λ n. RoundTrip-bind _ (RoundTrip-u8 _ _) (
        RoundTrip-bind _ (RoundTrip-u32 a _ ha)
          (RoundTrip-bind _ (RoundTrip-u32 i _ hi) (RoundTrip-map _ (RoundTrip-u32 v _ hv)))))
      (omega arith)

pub RoundTrip-instruction :
    (i : Instruction)
    → IsInstruction i
    → RoundTrip 6 (Encode.instruction i) read_instruction (strip_instruction i)
unfolding Encode.instruction read_instruction strip_instruction
RoundTrip-instruction i h =
    RoundTrip-bind _ (RoundTrip-kind i.kind h.kind)
      (RoundTrip-map _ (RoundTrip-opt_u32 i.result _ h.result))

pub RoundTrip-terminator :
    (t : Option Terminator) → IsTerminator t → RoundTrip 1 (Encode.terminator t) read_terminator t
unfolding Encode.terminator read_terminator terminator_body read_branch
RoundTrip-terminator none h = RoundTrip-offset λ n. RoundTrip-tag _ (RoundTrip-u8 _ _) refl
RoundTrip-terminator (some (Terminator.jump target args)) (ht, ha) =
    RoundTrip-weaken 1
      (RoundTrip-offset λ n. RoundTrip-bind _ (RoundTrip-u8 _ _) (
        RoundTrip-bind _ (RoundTrip-u32 target _ ht)
          (RoundTrip-map _ (RoundTrip-values args _ ha))))
      (omega arith)
RoundTrip-terminator (some (Terminator.branch c t ts e es)) (hc, ht, hts, he, hes) =
    RoundTrip-weaken 1
      (RoundTrip-offset λ n. RoundTrip-bind _ (RoundTrip-u8 _ _) (
        RoundTrip-bind _ (RoundTrip-u32 c _ hc) (
          RoundTrip-bind _ (RoundTrip-u32 t _ ht) (
            RoundTrip-bind _ (RoundTrip-values ts _ hts) (
              RoundTrip-bind _ (RoundTrip-u32 e _ he)
                (RoundTrip-map _ (RoundTrip-values es _ hes)))))))
      (omega arith)
RoundTrip-terminator (some (Terminator.return value)) h =
    RoundTrip-weaken 1
      (RoundTrip-offset
        λ n. RoundTrip-bind _ (RoundTrip-u8 _ _) (RoundTrip-map _ (RoundTrip-opt_u32 value _ h)))
      (omega arith)
RoundTrip-terminator (some Terminator.unreachable) h =
    RoundTrip-offset λ n. RoundTrip-tag _ (RoundTrip-u8 _ _) refl
