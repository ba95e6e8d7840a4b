-- ===== src/Verify/Uses/Sound.antt =====
-- Accepted uses: each is dominated by the definition of the value.
use astronomy.Prelude.{
  ℕ, ◌+◌, ◌%◌, ◌^◌, ◌<◌, ◌≤◌, ◌≡◌, sym, ap, ◌∙◌, subst, [], some, length, length-map, arith,
  get_elem?, get_elem?-lt,
}
use mathlib.Core.List.{Memᴰ}
use mathlib.Core.Option.{some-injective}
use astronomy.Ir.Functions.{
  ValueId, BlockId, ValueData, Instruction, BasicBlock, Terminator, Function,
}
use astronomy.Ir.Modules.{Name, Module}
use astronomy.Ir.Visits.{kind_values, terminator_values}
use astronomy.Verify.Loops.{
  collect_from, bind_parts, append_nil-parts, collect_from-get, collect-Memᴰ,
}
use astronomy.Verify.Ssa.Sound.{check_definitions-IsSsa}
use astronomy.Verify.Ssa.{check_definitions}
use astronomy.Verify.Ssa.Form.{IsSsa}
use astronomy.Verify.Cfg.{block_targets, successors}
use astronomy.Verify.Cfg.Dfs.{Walk}
use astronomy.Verify.Dominators.{CfgInfo, compute}
use astronomy.Verify.Dominators.Queries.{IsAnalysis, analyze_lem}
use astronomy.Verify.Terminators.{check_terminators}
use astronomy.Verify.Uses.{
  use_pos, value_errors, check_use, instruction_uses, terminator_uses, block_uses, check_uses,
  check_cfg,
}
use astronomy.Verify.Uses.Available.{IsAvailable, kind_lem, def_pos-range}

-- Every use in a block that control reaches is of a value that is available there.
pub record IsDominated (f : Function) : Type 0 where
  pub instructions :
      (b : BlockId) (block : BasicBlock)
      → get_elem? f.blocks b ≡ some block
      → Walk (successors f) b
      → (i : ℕ) (inst : Instruction) → get_elem? block.instructions i ≡ some inst
      → (v : ValueId) → Memᴰ v (kind_values inst.kind)
      → (d : ValueData) → get_elem? f.values v ≡ some d
      → IsAvailable (successors f) b i d.kind
  pub terminators :
      (b : BlockId) (block : BasicBlock)
      → get_elem? f.blocks b ≡ some block
      → Walk (successors f) b
      → (t : Terminator) → block.terminator ≡ some t
      → (v : ValueId) → Memᴰ v (terminator_values t)
      → (d : ValueData) → get_elem? f.values v ≡ some d
      → IsAvailable (successors f) b (length block.instructions) d.kind

-- The sizes that the source's `u32` positions can count.
pub record IsSmall (f : Function) : Type 0 where
  pub values : length f.values ≤ 2 ^ 32
  pub blocks : length f.blocks ≤ 2 ^ 32
  pub instructions :
      (b : BlockId) (block : BasicBlock)
      → get_elem? f.blocks b ≡ some block
      → length block.instructions + 1 < 2 ^ 32

module _ (f : Function) (name : Name) (small : IsSmall f) (ssa : IsSsa f) (info : CfgInfo)
    (body : 0 < length (successors f)) (h : IsAnalysis (successors f) info)
    (clean : check_uses f name info ≡ some []) where
  use_lem :
      (ub at v : ℕ)
      → Walk (successors f) ub
      → at + 1 < 2 ^ 32
      → check_use f name info ub (at + 1) v ≡ some []
      → (d : ValueData) → get_elem? f.values v ≡ some d
      → IsAvailable (successors f) ub at d.kind
  unfolding check_use successors
  use_lem ub at v walk few ran d e =
      kind_lem f name body info h v ub at d.kind walk few
        (λ db dpos q. omega (
          arith,
          def_pos-range f v d.ty d.kind (ssa.kinds v d e) db dpos q,
          length-map block_targets f.blocks,
        ))
        (ap (value_errors info name v ub (at + 1)) (sym e) ∙ ran)

  block_clean :
      (b : BlockId) (block : BasicBlock)
      → get_elem? f.blocks b ≡ some block
      → (collect_from (instruction_uses f name info b) 0 block.instructions ≡ some [])
        × (terminator_uses f name info b (use_pos block) block.terminator ≡ some [])
  unfolding check_uses block_uses
  block_clean b block e =
      let one = collect_from-get (block_uses f name info) 0 f.blocks clean b block e in
      let same : (0 + b) % 2 ^ 32 ≡ b = omega (arith, get_elem?-lt f.blocks b e, small.blocks) in
      let (es, ran, rest) =
        bind_parts
          (collect_from (instruction_uses f name info ((0 + b) % 2 ^ 32)) 0 block.instructions) _ []
          one in
      let (more, later, joined) =
        bind_parts (terminator_uses f name info ((0 + b) % 2 ^ 32) (use_pos block) block.terminator)
          _ [] rest in
      let (first, second) = append_nil-parts es more (some-injective _ _ joined) in
      (
        subst
            (λ (k : ℕ).
              collect_from (instruction_uses f name info k) 0 block.instructions ≡ some [])
            same (ran ∙ ap some first),
        subst (λ (k : ℕ). terminator_uses f name info k (use_pos block) block.terminator ≡ some [])
            same (later ∙ ap some second),
      )

  pub uses-IsDominated : IsDominated f
  unfolding instruction_uses
  uses-IsDominated = record {
    instructions = λ b block e walk i inst at v m d ed.
        let few : i + 1 < 2 ^ 32 =
          omega (arith, get_elem?-lt block.instructions i at, small.instructions b block e) in
        let round =
          collect_from-get (instruction_uses f name info b) 0 block.instructions
            (block_clean b block e).0 i inst at in
        let same : ((0 + i) % 2 ^ 32 + 1) % 2 ^ 32 ≡ i + 1 = omega (arith, few) in
        use_lem b i v walk few
          (subst (λ (k : ℕ). check_use f name info b k v ≡ some []) same
            (collect-Memᴰ (check_use f name info b (((0 + i) % 2 ^ 32 + 1) % 2 ^ 32))
              (kind_values inst.kind) round v m))
          d ed;
    terminators = λ b block e walk t at v m d ed.
        let few = small.instructions b block e in
        let same : use_pos block ≡ length block.instructions + 1 = omega (arith, few) in
        let round : terminator_uses f name info b (use_pos block) (some t) ≡ some [] =
          ap (terminator_uses f name info b (use_pos block)) (sym at) ∙ (block_clean b block e).1 in
        use_lem b (length block.instructions) v walk few
          (subst (λ (k : ℕ). check_use f name info b k v ≡ some []) same
            (collect-Memᴰ (check_use f name info b (use_pos block)) (terminator_values t) round v
              m))
          d ed;
  }

-- A function with a body whose definitions and control flow are checked without an error, with at most 2 ^ 32 values and blocks and less than 2 ^ 32 - 1 instructions to a block, uses a value of its arena in a block that control reaches only where it is available: it is a parameter of the function, or its definition comes earlier in the block, or every walk from the entry block to the use passes the block of its definition.
pub check_cfg-IsDominated :
    (m : Module) (f : Function) (name : Name)
    → IsSmall f
    → 0 < length f.blocks
    → check_definitions f name ≡ []
    → check_cfg m f name ≡ some []
    → IsDominated f
unfolding check_cfg compute successors
check_cfg-IsDominated m f name small some_body defined accepted =
    let body : 0 < length (successors f) =
      omega (arith, length-map block_targets f.blocks, some_body) in
    let (info, ran, h) = analyze_lem (successors f) body in
    let (info', ran', rest) = bind_parts (compute f) _ [] accepted in
    let (es, uses, joined) = bind_parts (check_uses f name info') _ [] rest in
    let clean =
      uses
      ∙ ap some (append_nil-parts (check_terminators m f name) es (some-injective _ _ joined)).1 in
    let same = some-injective _ _ (sym ran' ∙ ran) in
    uses-IsDominated f name small (check_definitions-IsSsa f name small.values defined) info body h
      (subst (λ i. check_uses f name i ≡ some []) same clean)
