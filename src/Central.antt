-- ===== src/Central.antt =====
-- The central package: aiohomematic/central.
pub mod ConnectionState
pub mod StateMachine
pub mod CentralUnit
pub mod ConnectionRecovery
