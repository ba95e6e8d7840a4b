-- ===== src/Verify.antt =====
-- The verifier (src/verify/).
pub mod Errors
pub mod Loops
pub mod Ssa
pub mod Cfg
pub mod Dominators
pub mod Terminators
pub mod Uses
pub mod Tests
