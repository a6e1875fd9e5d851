-- ===== src/Store.antt =====
-- The stores of the dynamic state: aiohomematic/store.
pub mod Types
pub mod PingPong
pub mod Command
