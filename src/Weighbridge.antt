-- ===== src/Weighbridge.antt =====
-- The weighbridge: backend/app/integrations/weighbridge and backend/app/services/weighbridge_service.py.
pub mod Device
pub mod Simulator
pub mod Adapter
pub mod Precision
pub mod Reads
