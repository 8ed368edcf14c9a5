-- ===== src/Master.antt =====
-- The master data: vehicles and customers.
pub mod Vehicles
pub mod Customers
pub mod Effects
pub mod Plates
pub mod Listing
