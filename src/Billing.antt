-- ===== src/Billing.antt =====
-- backend/app/services/billing_service.py.
pub mod Fees
pub mod Payments
pub mod Effects
pub mod Queries
pub mod Pricing
pub mod Finality
