-- ===== src/Weighing/Effects.antt =====
-- What each call of the weighing service has tested and written when it returns.
pub mod Active
pub mod ReadingCalls
pub mod LifecycleCalls
