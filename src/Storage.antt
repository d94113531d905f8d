-- ===== src/Storage.antt =====
-- internal/storage/storage.go: the functions on the tables, and what they keep true.
pub mod Jobs
pub mod Bodies
pub mod Endings
pub mod Fencing
pub mod Claiming
pub mod Burst
pub mod Reaper
pub mod Recording
pub mod Partitions
pub mod Claims
pub mod Completion
pub mod Promote
pub mod Schedules
pub mod Sound
