-- ===== src/Arb/RoundTrip.antt =====
-- The round trip of `.arb`: `read` after `write`.
pub mod Words
pub mod Tables
pub mod Instructions
pub mod Functions
pub mod Loops
pub mod Stores
pub mod TypeTable
pub mod Patches
pub mod Sections
pub mod Frame
pub mod Files
pub mod Versions
