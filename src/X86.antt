-- ===== src/X86.antt =====
-- The x86-64 code generator (astronomy-x86/).
pub mod Layout
mod Tests
