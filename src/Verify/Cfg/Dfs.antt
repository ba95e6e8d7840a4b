-- ===== src/Verify/Cfg/Dfs.antt =====
-- The depth-first search marks the blocks that control can reach, and ends.
pub mod Keeps
pub mod Ends
use astronomy.Prelude.{ℕ, ◌+◌, ◌-◌, ◌<◌, ◌≤◌, ◌≡◌, ◌≢◌, ◌↔◌, true, List, [], ◌∷◌, ◌++◌, length}
use mathlib.Core.List.{Memᴰ}
use astronomy.Prelude.Arrays.{at_or}
use astronomy.Prelude.Orders.{Precedes, Distinct}
use astronomy.Ir.Functions.{BlockId}
use astronomy.Verify.Cfg.{Search, targets, marked}

abbrev pub Edge : List (List BlockId) → BlockId → BlockId → Type 0
Edge succs u v = Memᴰ v (targets succs u) × (v < length succs)

-- The walks of control from the entry block.
pub data Walk (succs : List (List BlockId)) : BlockId → Type 0 where
  entry : Walk succs 0
  along : {u v : BlockId} → Walk succs u → Edge succs u v → Walk succs v

abbrev pub blocks_of : List (BlockId × ℕ) → List BlockId
blocks_of [] = []
blocks_of ((b, next) ∷ rest) = b ∷ blocks_of rest

-- The order in which the blocks that were entered are left.
abbrev pub order : Search → List BlockId
order s = s.post ++ blocks_of s.stack

-- The first `k` successors that the search looks at, which are the last ones of the list, are marked.
abbrev pub IsLooked : List (List BlockId) → Search → BlockId → ℕ → Type 0
IsLooked succs s b k =
    (j : ℕ)
    → j < k
    → j < length (targets succs b)
    → at_or 0 (targets succs b) (length (targets succs b) - 1 - j) < length succs
    → marked s (at_or 0 (targets succs b) (length (targets succs b) - 1 - j)) ≡ true

pub record IsSearch (succs : List (List BlockId)) (s : Search) : Type 0 where
  pub size : length s.reachable ≡ length succs
  pub root : marked s 0 ≡ true
  pub listed : (v : BlockId) → (marked s v ≡ true) ↔ Memᴰ v (order s)
  pub distinct : Distinct (order s)
  pub sound : (v : BlockId) → marked s v ≡ true → Walk succs v
  pub closed : (v w : BlockId) → Memᴰ v s.post → Edge succs v w → marked s w ≡ true
  pub looked : (b k : ℕ) → Memᴰ (b, k) s.stack → IsLooked succs s b k
  pub parent :
      (v : BlockId)
      → marked s v ≡ true
      → v ≢ 0
      → (u : BlockId) × Edge succs u v × Precedes v u (order s)
