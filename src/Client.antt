-- ===== src/Client.antt =====
-- The client package: aiohomematic/client.
pub mod CircuitBreaker
pub mod StateMachine
pub mod InterfaceClient
pub mod RequestCoalescer
pub mod CommandRetry
pub mod CommandThrottle
