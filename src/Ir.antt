-- ===== src/Ir.antt =====
-- The in-memory IR: the tables and the arenas of a module.
pub mod Interner
pub mod Types
pub mod Constants
pub mod Functions
pub mod Visits
pub mod Modules
pub mod Tests
