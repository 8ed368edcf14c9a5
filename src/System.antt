-- ===== src/System.antt =====
-- The requests together: what each may do to the database, and the invariants of all of them.
pub mod Requests
pub mod Moves
pub mod Changes
pub mod Execution
pub mod Induction
pub mod Settled
pub mod Soundness
pub mod Lifecycle
pub mod Numbering
pub mod Fees
pub mod FeeRows
pub mod Reversals
pub mod Refunds
pub mod Committed
pub mod Fleet
pub mod History
pub mod Deletions
