-- ===== src/Model.antt =====
-- The model of devices and data points: aiohomematic/model.
pub mod Optimistic
