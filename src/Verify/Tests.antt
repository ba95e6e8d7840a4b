-- ===== src/Verify/Tests.antt =====
-- The verifier on small functions.
use astronomy.Prelude.{
  ◌≡◌, ◌≢◌, ◌↔◌, refl, Bool, true, none, List, [], ◌∷◌, Option, some, arith, zero, suc, ◌+◌, ◌<◌,
  ◌^◌, length, get_elem?, subst,
}
use mathlib.Core.List.{Memᴰ}
use mathlib.Core.Option.{bind, some-injective}
use astronomy.Prelude.Orders.{Precedes, Distinct}
use astronomy.Ir.Functions.{BlockId, BasicBlock, Terminator}
use astronomy.Arb.Samples.{main, add_five, sample}
use astronomy.Verify.Loops.{each, each_from, report_from, collect_from, collect}
use astronomy.Verify.Ssa.{
  record_site, scan_param, scan_block_param, scan_result, scan_instruction, scan_block,
  arena_errors, scan_definitions, param_kind_errors, block_param_kind_errors, inst_kind_errors,
  kind_errors, check_value, check_definitions,
}
use astronomy.Verify.Ssa.Form.{IsSsa}
use astronomy.Verify.Ssa.Sound.{check_definitions-IsSsa}
use astronomy.Verify.Dominators.{
  CfgInfo, analyze, analyze_search, compute, dominates_from, rpo_numbers, predecessors, add_preds,
  settle, pass, update, merge_preds, intersect, intersect_from, climb, dominates, parent,
}
use astronomy.Verify.Dominators.Walks.{Dominates}
use astronomy.Verify.Dominators.Queries.{analyze-dominates, analyze-idom}
use astronomy.Verify.Terminators.{
  args_errors, edge_errors, terminator_errors, block_errors, check_terminators,
}
use astronomy.Verify.Terminators.Laws.{IsTerminator, check_terminators_iff}
use astronomy.Verify.Uses.{
  strictly_dominates, check_use, instruction_uses, block_uses, check_uses, check_cfg,
}
use astronomy.Verify.Uses.Sound.{IsSmall, IsDominated, check_cfg-IsDominated}
use astronomy.Ir.Types.{is_void, type_at, intern_type, new_types, intern_all}
use astronomy.Ir.Interner.{get, intern, new}
use astronomy.Ir.Visits.{kind_values, terminator_values, terminator_targets}
use astronomy.Verify.Cfg.{
  Search, successors, marked, search, search_from, visit, enter, start, rounds,
}
use astronomy.Verify.Cfg.Dfs.{Walk, Edge}
use astronomy.Verify.Cfg.Dfs.Ends.{search-reaches, search_post-Precedes}

add_five_accepted : check_definitions add_five main ≡ []
unfolding each_from report_from record_site scan_param scan_block_param scan_result scan_instruction
    scan_block arena_errors scan_definitions param_kind_errors block_param_kind_errors
    inst_kind_errors kind_errors check_value check_definitions
add_five_accepted = refl

check_definitions-IsSsa_example : IsSsa add_five
check_definitions-IsSsa_example =
    check_definitions-IsSsa add_five main (omega arith) add_five_accepted

-- A loop 1 → 2 → 1 behind a branch, and a block that control does not reach.
abbrev loop_and_dead : List (List BlockId)
loop_and_dead = (1 ∷ 3 ∷ []) ∷ (2 ∷ []) ∷ (1 ∷ 3 ∷ []) ∷ [] ∷ (3 ∷ []) ∷ []

search-reaches_example :
    (t : Search) × (search loop_and_dead ≡ some t)
    × ((v : BlockId) → (marked t v ≡ true) ↔ Walk loop_and_dead v)
search-reaches_example = search-reaches loop_and_dead (omega arith)

search_post-Precedes_example :
    (t : Search) × (search loop_and_dead ≡ some t)
    × Distinct t.post
    × ((v : BlockId) → Walk loop_and_dead v ↔ Memᴰ v t.post)
    × ((v : BlockId)
        → Memᴰ v t.post
        → v ≢ 0
        → (u : BlockId) × Edge loop_and_dead u v × Precedes v u t.post)
search_post-Precedes_example = search_post-Precedes loop_and_dead (omega arith)

analyze-dominates_example :
    (info : CfgInfo) × (analyze loop_and_dead ≡ some info)
    × ((a b : BlockId)
        → Walk loop_and_dead b
        → (d : Bool) × (dominates info a b ≡ some d) × ((d ≡ true) ↔ Dominates loop_and_dead a b))
analyze-dominates_example = analyze-dominates loop_and_dead (omega arith)

analyze-idom_example :
    (info : CfgInfo) × (analyze loop_and_dead ≡ some info)
    × ((b : BlockId)
        → Walk loop_and_dead b
        → b ≢ 0
        → (p : BlockId) × (parent info.idom b ≡ some p)
          × (p ≢ b)
          × Dominates loop_and_dead p b
          × ((z : BlockId) → Dominates loop_and_dead z b → z ≢ b → Dominates loop_and_dead z p))
analyze-idom_example = analyze-idom loop_and_dead (omega arith)

-- The parents that the rounds come to: 3 is reached from 0 and from 2.
abbrev idoms : Option CfgInfo → Option (List (Option BlockId))
idoms none = none
idoms (some info) = some info.idom

idoms-loop_and_dead :
    idoms (analyze loop_and_dead) ≡ some (some 0 ∷ some 0 ∷ some 1 ∷ some 0 ∷ none ∷ [])
unfolding analyze analyze_search search search_from visit enter start rounds bind rpo_numbers
    each_from predecessors add_preds each settle pass update merge_preds intersect intersect_from
    climb
idoms-loop_and_dead = refl

-- A block of each length that `add_five` has.
add_five-IsSmall : IsSmall add_five
add_five-IsSmall = record { values = omega arith; blocks = omega arith; instructions = short }
  where
    short :
        (b : BlockId) (block : BasicBlock)
        → get_elem? add_five.blocks b ≡ some block
        → length block.instructions + 1 < 2 ^ 32
    short zero block e =
        subst (λ x. length x.instructions + 1 < 2 ^ 32) (some-injective _ _ e) (omega arith)
    short (suc b) block e = cc

add_five-check_cfg : check_cfg sample add_five main ≡ some []
unfolding check_cfg compute analyze analyze_search search search_from visit enter start rounds bind
    rpo_numbers each_from predecessors add_preds each settle pass update merge_preds intersect
    intersect_from climb successors terminator_targets check_uses block_uses instruction_uses
    check_use strictly_dominates dominates dominates_from collect collect_from kind_values
    terminator_values check_terminators block_errors terminator_errors edge_errors args_errors
    report_from is_void type_at get intern_type intern new_types intern_all new
add_five-check_cfg = refl

check_cfg-IsDominated_example : IsDominated add_five
check_cfg-IsDominated_example =
    check_cfg-IsDominated sample add_five main add_five-IsSmall (omega arith) add_five_accepted
      add_five-check_cfg

check_terminators_iff_example : (check_terminators sample add_five main ≡ []) ↔ (
    (b : BlockId) (block : BasicBlock)
    → get_elem? add_five.blocks b ≡ some block
    → (t : Terminator) × (block.terminator ≡ some t) × IsTerminator sample add_five t)
check_terminators_iff_example = check_terminators_iff sample add_five main
