-- ===== src/Store.antt =====
-- backend/app/models and backend/app/db: the tables, their constraints, and the session.
pub mod Rows
pub mod Db
pub mod Constraints
pub mod Session
pub mod Uniqueness
