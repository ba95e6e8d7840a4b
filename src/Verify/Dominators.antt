-- ===== src/Verify/Dominators.antt =====
-- Immediate dominators (src/verify/cfg.rs): the iteration of Cooper, Harvey and Kennedy over the
-- blocks in reverse post-order, and the queries. A loop that walks up the tree runs on fuel, and
-- `none` is where the fuel does not suffice.
pub mod Walks
pub mod Short
pub mod Chains
pub mod Meets
pub mod Levels
pub mod Rounds
pub mod Settled
pub mod Numbers
pub mod Preds
pub mod Exact
pub mod Queries
use astronomy.Prelude.{
  ℕ, zero, suc, ◌+◌, ◌-◌, ◌^◌, Bool, true, false, ◌&&◌, not, List, [], ◌∷◌, ◌++◌, Option, none,
  some, length, drop, ltb, ◌==◌, if◌then◌else◌,
}
use mathlib.Core.List.{reverse}
use mathlib.Core.Option.{bind}
use astronomy.Prelude.Arrays.{at_or, write, filled}
use astronomy.Ir.Functions.{BlockId, Function}
use astronomy.Verify.Loops.{each, each_from}
use astronomy.Verify.Cfg.{Search, targets, successors, search}

-- `usize::MAX`
abbrev pub usize_max : ℕ
usize_max = 2 ^ 64 - 1

pub record CfgInfo : Type 0 where
  pub reachable : List Bool
  pub rpo_number : List ℕ
  pub idom : List (Option BlockId)

-- The position of each block in reverse post-order.
unfoldable pub rpo_numbers : ℕ → List BlockId → List ℕ
rpo_numbers n rpo = each_from (λ i b nums. write b i nums) 0 rpo (filled n usize_max)

abbrev pub add_pred : ℕ → BlockId → BlockId → List (List BlockId) → List (List BlockId)
add_pred n b s preds = if ltb s n then write s (at_or [] preds s ++ (b ∷ [])) preds else preds

unfoldable pub add_preds : List (List BlockId) → BlockId → List (List BlockId) → List (List BlockId)
add_preds succs b preds = each (add_pred (length succs) b) (targets succs b) preds

-- The predecessors, those that control reaches only.
unfoldable pub predecessors : List (List BlockId) → List BlockId → List (List BlockId)
predecessors succs rpo = each (add_preds succs) rpo (filled (length succs) [])

-- Blocks that control reaches are in range; out of range, where the source would panic, the reading
-- is the array's blank entry.
abbrev pub number : List ℕ → BlockId → ℕ
number nums b = at_or usize_max nums b

abbrev pub parent : List (Option BlockId) → BlockId → Option BlockId
parent idom b = at_or none idom b

abbrev pub unwrap_or : Option BlockId → BlockId → BlockId
unwrap_or none a = a
unwrap_or (some p) a = p

-- `while rpo_number[a] > floor { a = idom[a].unwrap_or(a) }`
unfoldable pub climb : ℕ → List ℕ → List (Option BlockId) → ℕ → BlockId → Option BlockId
climb zero nums idom floor a = none
climb (suc fuel) nums idom floor a = elim (ltb floor (number nums a)) [
  | true ↦ climb fuel nums idom floor (unwrap_or (parent idom a) a)
  | false ↦ some a
]

unfoldable pub intersect_from :
    ℕ → List ℕ → List (Option BlockId) → BlockId → BlockId → Option BlockId
intersect_from zero nums idom a b = none
intersect_from (suc fuel) nums idom a b = elim (a == b) [
  | true ↦ some a
  | false ↦ bind (climb (suc (number nums a)) nums idom (number nums b) a) (λ a'.
      bind (climb (suc (number nums b)) nums idom (number nums a') b)
        (λ b'. intersect_from fuel nums idom a' b'))
]

-- A step of either walk takes it to a block of a smaller number.
unfoldable pub intersect : List ℕ → List (Option BlockId) → BlockId → BlockId → Option BlockId
intersect nums idom a b = intersect_from (suc (number nums a + number nums b)) nums idom a b

abbrev pub merged :
    List ℕ → List (Option BlockId) → BlockId → Option BlockId → Option (Option BlockId)
merged nums idom p none = some (some p)
merged nums idom p (some cur) = bind (intersect nums idom p cur) (λ c. some (some c))

-- A predecessor that was processed is merged into `new_idom`.
abbrev pub merge_pred :
    List ℕ → List (Option BlockId) → BlockId → Option BlockId → Option (Option BlockId)
merge_pred nums idom p new_idom = elim (parent idom p) [
  | none ↦ some new_idom
  | some _ ↦ merged nums idom p new_idom
]

unfoldable pub merge_preds :
    List ℕ → List (Option BlockId) → List BlockId → Option BlockId → Option (Option BlockId)
merge_preds nums idom [] new_idom = some new_idom
merge_preds nums idom (p ∷ ps) new_idom =
    bind (merge_pred nums idom p new_idom) (merge_preds nums idom ps)

pub record Dominating : Type 0 where
  pub idom : List (Option BlockId)
  pub changed : Bool

abbrev pub is_block : Option BlockId → BlockId → Bool
is_block none b = false
is_block (some p) b = p == b

abbrev pub assign : BlockId → Option BlockId → Dominating → Dominating
assign b none s = s
assign b (some nd) s =
    if is_block (parent s.idom b) nd
    then s
    else record { idom = write b (some nd) s.idom; changed = true }

-- The body of the loop over the blocks.
unfoldable pub update : List (List BlockId) → List ℕ → BlockId → Dominating → Option Dominating
update preds nums b s =
    bind (merge_preds nums s.idom (at_or [] preds b) none) (λ new_idom. some (assign b new_idom s))

unfoldable pub pass : List (List BlockId) → List ℕ → List BlockId → Dominating → Option Dominating
pass preds nums [] s = some s
pass preds nums (b ∷ rest) s = bind (update preds nums b s) (pass preds nums rest)

-- `while changed`, with `rest` the blocks in reverse post-order but the first.
unfoldable pub settle :
    ℕ
    → List (List BlockId)
    → List ℕ
    → List BlockId
    → List (Option BlockId)
    → Option (List (Option BlockId))
settle zero preds nums rest idom = none
settle (suc fuel) preds nums rest idom =
    bind (pass preds nums rest (record { idom = idom; changed = false }))
      (λ s. elim s.changed [ true ↦ settle fuel preds nums rest s.idom | false ↦ some s.idom ])

-- The longest walk that visits no block twice bounds the rounds of `while changed`.
unfoldable pub analyze_search : List (List BlockId) → Search → Option CfgInfo
analyze_search succs s =
    let n = length succs in
    let rpo = reverse s.post in
    let nums = rpo_numbers n rpo in
    bind
      (settle (n + 2) (predecessors succs rpo) nums (drop 1 rpo) (write 0 (some 0) (filled n none)))
      (λ idom. some (record { reachable = s.reachable; rpo_number = nums; idom = idom }))

unfoldable pub analyze : List (List BlockId) → Option CfgInfo
analyze [] = some (record { reachable = []; rpo_number = []; idom = [] })
analyze (ss ∷ succs) = bind (search (ss ∷ succs)) (analyze_search (ss ∷ succs))

-- `CfgInfo::compute`
unfoldable pub compute : Function → Option CfgInfo
compute f = analyze (successors f)

unfoldable pub dominates_from : ℕ → List (Option BlockId) → BlockId → BlockId → Option Bool
dominates_from zero idom a x = none
dominates_from (suc fuel) idom a x = elim (x == a) [
  | true ↦ some true
  | false ↦ elim (parent idom x) [
    | none ↦ some false
    | some p ↦ elim (p == x) [ true ↦ some false | false ↦ dominates_from fuel idom a p ]
  ]
]

unfoldable pub dominates : CfgInfo → BlockId → BlockId → Option Bool
dominates info a b = dominates_from (suc (number info.rpo_number b)) info.idom a b
