-- ===== src/Scheduler.antt =====
-- The scheduler of pkg/controllers/scheduler: its framework, its plugins and its algorithm.
pub mod Types
pub mod Taints
pub mod Filters
pub mod MaxCluster
pub mod Runtime
pub mod Generic
pub mod Triggers
pub mod Unit
mod Tests
