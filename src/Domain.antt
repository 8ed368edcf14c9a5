-- ===== src/Domain.antt =====
-- backend/app/domain: enums, errors, decimal weights and the weight calculation.
pub mod Enums
pub mod Errors
pub mod Text
pub mod Days
pub mod Decimal
pub mod Weighing
