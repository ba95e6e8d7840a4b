-- ===== src/Verify/Uses/Total.antt =====
-- `check_cfg` ends: the walks up the dominator tree start at blocks that control reaches.
use astronomy.Prelude.{◌≡◌, Bool, true, false, Option, some}
use astronomy.Prelude.Arrays.{at_or}
use astronomy.Ir.Functions.{BlockId}
use astronomy.Verify.Dominators.{CfgInfo, dominates}

-- The walk up from a block that control reaches ends.
abbrev pub IsAnswering : CfgInfo → Type 0
IsAnswering info =
    (a b : BlockId)
    → at_or false info.reachable b ≡ true
    → (d : Bool) × (dominates info a b ≡ some d)
