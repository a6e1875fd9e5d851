-- ===== src/Support.antt =====
-- The helpers that every layer uses: aiohomematic/support.
pub mod Integers
pub mod Texts
pub mod Address
