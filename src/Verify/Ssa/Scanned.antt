-- ===== src/Verify/Ssa/Scanned.antt =====
-- The scan over the definitions of a function (src/verify/ssa.rs) holds each of them in the end, where it reports nothing.
use astronomy.Prelude.{
  ℕ, ◌+◌, ◌<◌, ◌≤◌, ◌≡◌, ap, ◌∙◌, subst, [], none, some, length, get_elem?, arith,
}
use astronomy.Ir.Functions.{Instruction, BlockParam, BasicBlock, Param, Function}
use astronomy.Ir.Modules.{Name}
use astronomy.Verify.Errors.{DefSite}
use astronomy.Verify.Loops.{each_from, each_from-keeps, each_from-at}
use astronomy.Verify.Ssa.{
  Scan, scan_param, scan_block_param, scan_instruction, scan_block, arena_errors, scan_definitions,
}
use astronomy.Verify.Ssa.Grows.{
  Grows, Grows-refl, Grows-trans, recorded, scan_param-Grows, scan_instruction-Grows,
  scan_block_param-Grows, params_scanned, scan_block-Grows, scan_param_lem, scan_instruction_lem,
}

module _ (f : Function) (name : Name) where
  start : Scan
  start = record { defined = λ v. none; errors = arena_errors f name }

  function_params_scanned : Scan
  function_params_scanned = each_from (scan_param name) 0 f.params start

  blocks-Grow : Grows function_params_scanned (scan_definitions f name)
  unfolding scan_definitions function_params_scanned start
  blocks-Grow =
      each_from-keeps Grows Grows-refl Grows-trans (scan_block name (length f.values))
        (scan_block-Grows name (length f.values)) 0 f.blocks function_params_scanned

  params-Grow : Grows start function_params_scanned
  unfolding function_params_scanned
  params-Grow =
      each_from-keeps Grows Grows-refl Grows-trans (scan_param name) (scan_param-Grows name) 0
        f.params start

  module _ (accepted : (scan_definitions f name).errors ≡ []) where
    pub arena_fits : length f.params ≤ length f.values
    unfolding start arena_errors
    arena_fits = ground (arith, params-Grow.clean (blocks-Grow.clean accepted))

    -- Each parameter is the value of its own index, and recorded.
    pub param_recorded :
        (i : ℕ) (p : Param)
        → get_elem? f.params i ≡ some p
        → (p.value ≡ i)
          × ((scan_definitions f name).defined p.value ≡ some (DefSite.function_param i))
    unfolding function_params_scanned
    param_recorded i p e =
        let (t, later) =
          each_from-at Grows Grows-refl Grows-trans (scan_param name) (scan_param-Grows name) 0
            f.params start i p e in
        let after = Grows-trans _ _ _ later blocks-Grow in
        let at : 0 + i ≡ i = omega arith in
        let (own, found) = scan_param_lem name (0 + i) p t (after.clean accepted) in
        (
          own ∙ at,
          after.kept accepted p.value (DefSite.function_param i)
              (found ∙ ap (λ k. some (DefSite.function_param k)) at),
        )

    -- What is recorded while a block is scanned is there in the end.
    block_recorded :
        (bi : ℕ) (block : BasicBlock) (value : ℕ) (site : DefSite)
        → get_elem? f.blocks bi ≡ some block
        → ((t : Scan)
            → (scan_block name (length f.values) bi block t).errors ≡ []
            → (scan_block name (length f.values) bi block t).defined value ≡ some site)
        → (scan_definitions f name).defined value ≡ some site
    unfolding scan_definitions function_params_scanned start
    block_recorded bi block value site e found =
        let (t, later) =
          each_from-at Grows Grows-refl Grows-trans (scan_block name (length f.values))
            (scan_block-Grows name (length f.values)) 0 f.blocks function_params_scanned bi block
            e in
        let here =
          subst
            (λ (k : ℕ).
              Grows (scan_block name (length f.values) k block t) (scan_definitions f name))
            (let k : 0 + bi ≡ bi = omega arith in k) later in
        here.kept accepted value site (found t (here.clean accepted))

    pub block_param_recorded :
        (bi pi : ℕ) (block : BasicBlock) (p : BlockParam)
        → get_elem? f.blocks bi ≡ some block
        → get_elem? block.params pi ≡ some p
        → (scan_definitions f name).defined p.value ≡ some (DefSite.block_param bi pi)
    unfolding scan_block scan_block_param params_scanned
    block_param_recorded bi pi block p e at =
        block_recorded bi block p.value (DefSite.block_param bi pi) e (λ s h.
          let (t, later) =
            each_from-at Grows Grows-refl Grows-trans (scan_block_param name bi)
              (scan_block_param-Grows name bi) 0 block.params s pi p at in
          let rest =
            each_from-keeps Grows Grows-refl Grows-trans
              (scan_instruction name (length f.values) bi)
              (scan_instruction-Grows name (length f.values) bi) 0 block.instructions
              (params_scanned name bi block s) in
          let after = Grows-trans _ _ _ later rest in
          let found = recorded name p.value (DefSite.block_param bi (0 + pi)) t (after.clean h) in
          after.kept h p.value (DefSite.block_param bi pi) (
            found
            ∙ ap (λ k. some (DefSite.block_param bi k)) (let k : 0 + pi ≡ pi = omega arith in k)))

    instruction_scanned :
        (bi ii : ℕ) (block : BasicBlock) (inst : Instruction) (result : ℕ) (s : Scan)
        → get_elem? block.instructions ii ≡ some inst
        → inst.result ≡ some result
        → (scan_block name (length f.values) bi block s).errors ≡ []
        → (result < length f.values)
          × ((scan_block name (length f.values) bi block s).defined result
              ≡ some (DefSite.inst bi ii))
    unfolding scan_block params_scanned
    instruction_scanned bi ii block inst result s at e h =
        let (t, later) =
          each_from-at Grows Grows-refl Grows-trans (scan_instruction name (length f.values) bi)
            (scan_instruction-Grows name (length f.values) bi) 0 block.instructions
            (params_scanned name bi block s) ii inst at in
        let (fits, found) =
          scan_instruction_lem name (length f.values) bi (0 + ii) inst result t e (later.clean h) in
        (
          fits,
          later.kept h result (DefSite.inst bi ii)
              (found ∙ ap (λ k. some (DefSite.inst bi k)) (let k : 0 + ii ≡ ii = omega arith in k)),
        )

    pub result_recorded :
        (bi ii : ℕ) (block : BasicBlock) (inst : Instruction) (result : ℕ)
        → get_elem? f.blocks bi ≡ some block
        → get_elem? block.instructions ii ≡ some inst
        → inst.result ≡ some result
        → (scan_definitions f name).defined result ≡ some (DefSite.inst bi ii)
    result_recorded bi ii block inst result e at made =
        block_recorded bi block result (DefSite.inst bi ii) e
          (λ s h. (instruction_scanned bi ii block inst result s at made h).1)

    pub result_fits :
        (bi ii : ℕ) (block : BasicBlock) (inst : Instruction) (result : ℕ)
        → get_elem? f.blocks bi ≡ some block
        → get_elem? block.instructions ii ≡ some inst
        → inst.result ≡ some result
        → result < length f.values
    unfolding scan_definitions function_params_scanned start
    result_fits bi ii block inst result e at made =
        let (t, later) =
          each_from-at Grows Grows-refl Grows-trans (scan_block name (length f.values))
            (scan_block-Grows name (length f.values)) 0 f.blocks function_params_scanned bi block
            e in
        (instruction_scanned (0 + bi) ii block inst result t at made (later.clean accepted)).0
