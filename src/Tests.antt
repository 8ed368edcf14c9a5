-- ===== src/Tests.antt =====
-- Runs on a small database, and the theorems applied to them.
mod Fixtures
mod Requests
mod Calls
mod Races
mod Accounts
mod Figures
mod Devices
mod Summaries
mod Routes
