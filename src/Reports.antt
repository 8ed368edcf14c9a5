-- ===== src/Reports.antt =====
-- The read-only figures of backend/app/services/dashboard_service.py, report_service.py and
-- analytics_service.py.
pub mod Figures
pub mod Rankings
pub mod Dashboard
pub mod Periods
pub mod Reversed
