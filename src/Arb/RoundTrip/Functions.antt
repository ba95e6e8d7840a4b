-- ===== src/Arb/RoundTrip/Functions.antt =====
-- Functions, read back as they were written, less their source spans.
use astronomy.Prelude.{
  ℕ, ◌<◌, ◌≤◌, ◌^◌, ◌≡◌, refl, Option, none, some, length, arith, lt→ltb, String,
}
use native.Mathlib.Nat.{lt_of_lt_of_le}
use astronomy.Ir.Functions.{
  ValueKind, ValueData, BlockParam, BasicBlock, Linkage, Abi, Param, Function,
}
use astronomy.Ir.Modules.{SymbolStore}
use astronomy.Arb.Bytes.{IsOptU32}
use astronomy.Arb.Writer
use astronomy.Arb.Writer.{◌>>◌}
use astronomy.Arb.Cursor.{pure, ◌>>=◌}
use astronomy.Arb.Codec.{
  RoundTrip, RoundTrip-bind, RoundTrip-map, RoundTrip-tag, RoundTrip-offset, RoundTrip-weaken,
}
use astronomy.Arb.Codec.Words.{RoundTrip-u8, RoundTrip-u32, RoundTrip-bool, RoundTrip-opt_u32}
use astronomy.Arb.Codec.Lists.{RoundTrip-list, RoundTrip-list_self}
use astronomy.Arb.Encodable.{
  strip_instruction, strip_block, strip_value, strip_function, IsInstruction, IsBlockParam, IsParam,
  IsValueKind, IsOptSymbol, IsAbi, IsValue, IsBlock, IsFunction,
}
use astronomy.Arb.Encode.Functions as Encode
use astronomy.Arb.Encode.Functions.{binary, instruction_kind}
use astronomy.Arb.Decode.Instructions.{read_instruction}
use astronomy.Arb.Decode.Functions.{
  check_symbol, check_opt_symbol, read_opt_symbol, read_block_param, read_block, read_linkage,
  read_custom_abi, read_abi, read_param, value_kind_body, read_value_kind, read_value,
  read_function_symbol, read_function,
}
use astronomy.Arb.RoundTrip.Instructions.{RoundTrip-instruction, RoundTrip-terminator}

RoundTrip-block_param :
    (p : BlockParam) → IsBlockParam p → RoundTrip 8 (Encode.block_param p) read_block_param p
unfolding Encode.block_param read_block_param
RoundTrip-block_param p (hv, ht) =
    RoundTrip-bind _ (RoundTrip-u32 p.value _ hv) (RoundTrip-map _ (RoundTrip-u32 p.ty _ ht))

RoundTrip-param : (p : Param) → IsParam p → RoundTrip 8 (Encode.param p) read_param p
unfolding Encode.param read_param
RoundTrip-param p (hv, ht) =
    RoundTrip-bind _ (RoundTrip-u32 p.value _ hv) (RoundTrip-map _ (RoundTrip-u32 p.ty _ ht))

RoundTrip-value_kind :
    (k : ValueKind) → IsValueKind k → RoundTrip 1 (Encode.value_kind k) read_value_kind k
unfolding Encode.value_kind read_value_kind value_kind_body
RoundTrip-value_kind ValueKind.reserved h =
    RoundTrip-offset λ n. RoundTrip-tag _ (RoundTrip-u8 _ _) refl
RoundTrip-value_kind (ValueKind.param index) h =
    RoundTrip-weaken 1
      (RoundTrip-offset
        λ n. RoundTrip-bind _ (RoundTrip-u8 _ _) (RoundTrip-map _ (RoundTrip-u32 index _ h)))
      (omega arith)
RoundTrip-value_kind (ValueKind.block_param block index) (hb, hi) =
    RoundTrip-weaken 1
      (RoundTrip-offset λ n.
        RoundTrip-bind _ (RoundTrip-u8 _ _) (
          RoundTrip-bind _ (RoundTrip-u32 block _ hb) (RoundTrip-map _ (RoundTrip-u32 index _ hi))))
      (omega arith)
RoundTrip-value_kind (ValueKind.inst block index) (hb, hi) =
    RoundTrip-weaken 1
      (RoundTrip-offset λ n.
        RoundTrip-bind _ (RoundTrip-u8 _ _) (
          RoundTrip-bind _ (RoundTrip-u32 block _ hb) (RoundTrip-map _ (RoundTrip-u32 index _ hi))))
      (omega arith)

RoundTrip-linkage : (l : Linkage) → RoundTrip 1 (Writer.u8 (Encode.linkage l)) read_linkage l
unfolding read_linkage
RoundTrip-linkage Linkage.internal = RoundTrip-offset λ n. RoundTrip-tag _ (RoundTrip-u8 _ _) refl
RoundTrip-linkage Linkage.external = RoundTrip-offset λ n. RoundTrip-tag _ (RoundTrip-u8 _ _) refl
RoundTrip-linkage Linkage.exported = RoundTrip-offset λ n. RoundTrip-tag _ (RoundTrip-u8 _ _) refl

-- References into the symbol table resolve.
module _ (symbols : SymbolStore) (small : length symbols.entries ≤ 2 ^ 32) where
  check_symbol-eq-pure :
      (id at : ℕ) → id < length symbols.entries → check_symbol id symbols at ≡ pure id
  unfolding check_symbol
  check_symbol-eq-pure id at h = rw (lt→ltb id (length symbols.entries) h)

  pub check_opt_symbol-eq-pure :
      (o : Option ℕ) (at : ℕ)
      → IsOptSymbol (length symbols.entries) o
      → check_opt_symbol o symbols at ≡ pure o
  unfolding check_opt_symbol ◌>>=◌ pure
  check_opt_symbol-eq-pure none at h = refl
  check_opt_symbol-eq-pure (some id) at h = rw (check_symbol-eq-pure id at h)

  pub opt_symbol-IsOptU32 : (o : Option ℕ) → IsOptSymbol (length symbols.entries) o → IsOptU32 o
  opt_symbol-IsOptU32 none h = tt
  opt_symbol-IsOptU32 (some id) h = omega arith

  RoundTrip-opt_symbol :
      (o : Option ℕ) (what : String)
      → IsOptSymbol (length symbols.entries) o
      → RoundTrip 1 (Writer.opt_u32 o) (read_opt_symbol symbols what) o
  unfolding read_opt_symbol
  RoundTrip-opt_symbol o what h = RoundTrip-offset λ n.
      RoundTrip-tag _ (RoundTrip-opt_u32 o what (opt_symbol-IsOptU32 o h))
        (check_opt_symbol-eq-pure o n h)

  RoundTrip-abi :
      (a : Abi) → IsAbi (length symbols.entries) a → RoundTrip 1 (Encode.abi a) (read_abi symbols) a
  unfolding Encode.abi read_abi read_custom_abi
  RoundTrip-abi Abi.astronomy_abi h = RoundTrip-offset λ n. RoundTrip-tag _ (RoundTrip-u8 _ _) refl
  RoundTrip-abi Abi.c h = RoundTrip-offset λ n. RoundTrip-tag _ (RoundTrip-u8 _ _) refl
  RoundTrip-abi Abi.system h = RoundTrip-offset λ n. RoundTrip-tag _ (RoundTrip-u8 _ _) refl
  RoundTrip-abi (Abi.custom id) h =
      RoundTrip-weaken 1
        (RoundTrip-offset λ n. RoundTrip-bind _ (RoundTrip-u8 _ _) (
          RoundTrip-offset λ k.
            RoundTrip-tag _ (RoundTrip-u32 id _ (omega arith))
              (unfold ◌>>=◌ pure in rw (check_symbol-eq-pure id k h))))
        (omega arith)

  RoundTrip-value :
      (v : ValueData)
      → IsValue (length symbols.entries) v
      → RoundTrip 6 (Encode.value v) (read_value symbols) (strip_value v)
  unfolding Encode.value read_value strip_value
  RoundTrip-value v h = RoundTrip-bind _ (RoundTrip-u32 v.ty _ h.ty) (
      RoundTrip-bind _ (RoundTrip-value_kind v.kind h.kind)
        (RoundTrip-map _ (RoundTrip-opt_symbol v.name _ h.name)))

  RoundTrip-block :
      (b : BasicBlock)
      → IsBlock (length symbols.entries) b
      → RoundTrip 10 (Encode.block b) (read_block symbols) (strip_block b)
  unfolding Encode.block read_block strip_block
  RoundTrip-block b h = RoundTrip-bind _ (RoundTrip-opt_symbol b.name _ h.name) (
      RoundTrip-bind _
        (RoundTrip-list_self IsBlockParam 8 Encode.block_param read_block_param _
          RoundTrip-block_param b.params h.params)
        (RoundTrip-bind _
          (RoundTrip-list IsInstruction 6 Encode.instruction read_instruction strip_instruction _
            RoundTrip-instruction b.instructions h.instructions)
          (RoundTrip-map _ (RoundTrip-terminator b.terminator h.terminator))))

  -- Over at most 2 ^ 32 symbols, a well-formed function is read back, less its source spans, from what `write` appends for it, which is 23 bytes at least.
  pub RoundTrip-function :
      (f : Function)
      → IsFunction (length symbols.entries) f
      → RoundTrip 23 (Encode.function f) (read_function symbols) (strip_function f)
  unfolding Encode.function read_function read_function_symbol strip_function
  RoundTrip-function f h =
      RoundTrip-weaken 23
        (RoundTrip-bind _
          (RoundTrip-offset λ n.
            RoundTrip-tag _ (RoundTrip-u32 f.symbol _ (lt_of_lt_of_le h.symbol small))
              (check_symbol-eq-pure f.symbol n h.symbol))
          (RoundTrip-bind _ (RoundTrip-linkage f.linkage) (
            RoundTrip-bind _ (RoundTrip-abi f.abi h.abi) (
              RoundTrip-bind _ (RoundTrip-bool f.variadic _) (
                RoundTrip-bind _ (RoundTrip-u32 f.result _ h.result) (
                  RoundTrip-bind _
                    (RoundTrip-list_self IsParam 8 Encode.param read_param _ RoundTrip-param
                      f.params h.params)
                    (RoundTrip-bind _
                      (RoundTrip-list (IsValue _) 6 Encode.value (read_value symbols) strip_value _
                        RoundTrip-value f.values h.values)
                      (RoundTrip-map _ (
                        RoundTrip-list (IsBlock _) 10 Encode.block (read_block symbols) strip_block
                          _ RoundTrip-block f.blocks h.blocks)))))))))
        (omega arith)
