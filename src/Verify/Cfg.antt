-- ===== src/Verify/Cfg.antt =====
-- Control flow (src/verify/cfg.rs): reachable blocks, in the order that the search leaves them.
pub mod Dfs
use astronomy.Prelude.{
  ℕ, zero, suc, ◌+◌, ◌-◌, Bool, true, false, ◌&&◌, not, List, [], ◌∷◌, ◌++◌, Option, none, some,
  length, map, ltb, if◌then◌else◌,
}
use astronomy.Prelude.Arrays.{at_or, write, filled}
use astronomy.Ir.Functions.{BlockId, BasicBlock, Terminator, Function}
use astronomy.Ir.Visits.{terminator_targets}

abbrev pub opt_targets : Option Terminator → List BlockId
opt_targets none = []
opt_targets (some t) = terminator_targets t

abbrev pub block_targets : BasicBlock → List BlockId
block_targets b = opt_targets b.terminator

-- The successor lists.
unfoldable pub successors : Function → List (List BlockId)
successors f = map block_targets f.blocks

-- The state of the depth-first search. `stack` has its top in front; an entry is a block and the
-- number of its successors that were looked at.
pub record Search : Type 0 where
  pub reachable : List Bool
  pub post : List BlockId
  pub stack : List (BlockId × ℕ)

-- `successors[block]`; the blocks of the stack are in range.
abbrev pub targets : List (List BlockId) → BlockId → List BlockId
targets succs block = at_or [] succs block

abbrev pub marked : Search → BlockId → Bool
marked s v = at_or false s.reachable v

-- A successor that is in range and new is marked and pushed.
unfoldable pub enter : ℕ → BlockId → Search → Search
enter n t s =
    if ltb t n && not (marked s t)
    then record s { reachable = write t true s.reachable; stack = (t, 0) ∷ s.stack }
    else s

-- One round of the `while` loop, with `(block, next)` on top of `rest`.
unfoldable pub visit : List (List BlockId) → BlockId → ℕ → List (BlockId × ℕ) → Search → Search
visit succs block next rest s =
    let ss = targets succs block in
    if ltb next (length ss)
    then enter (length succs) (at_or 0 ss (length ss - 1 - next))
        (record s { stack = (block, next + 1) ∷ rest })
    else record s { post = s.post ++ (block ∷ []); stack = rest }

-- `none` where the fuel does not suffice.
unfoldable pub search_from : List (List BlockId) → ℕ → Search → Option Search
search_from succs zero s = elim s.stack [ [] ↦ some s | _ ∷ _ ↦ none ]
search_from succs (suc fuel) s = elim s.stack [
  | [] ↦ some s
  | (block, next) ∷ rest ↦ search_from succs fuel (visit succs block next rest s)
]

-- A round for each successor of each block, and one to leave the block.
unfoldable pub rounds : List (List BlockId) → ℕ
rounds [] = 0
rounds (ss ∷ succs) = suc (length ss) + rounds succs

unfoldable pub start : List (List BlockId) → Search
start succs = record {
  reachable = write 0 true (filled (length succs) false);
  post = [];
  stack = (0, 0) ∷ [];
}

-- The depth-first search from the entry block, of a function with a body.
unfoldable pub search : List (List BlockId) → Option Search
search succs = search_from succs (rounds succs) (start succs)
