-- ===== src/Weighing.antt =====
-- backend/app/services/weighing_service.py.
pub mod Inputs
pub mod Tasks
pub mod Readings
pub mod Lifecycle
pub mod Effects
pub mod Queries
pub mod Overweight
pub mod Charges
