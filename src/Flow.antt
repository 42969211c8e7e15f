-- ===== src/Flow.antt =====
-- internal/flow: observations, mergeable timing statistics, and windows per flow and interval.
pub mod Types
pub mod Stats
pub mod Window
pub mod Order
pub mod Aggregate
pub mod Stream
pub mod Tests
