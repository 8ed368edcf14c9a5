-- ===== src/System/Execution.antt =====
-- Every request that returns is one of the changes of `System.Changes`.
pub mod ReadingChanges
pub mod TaskChanges
pub mod FeeChanges
pub mod MasterChanges
pub mod Dispatch
