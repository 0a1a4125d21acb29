-- ===== src/Planner.antt =====
-- The replica planner: pkg/controllers/scheduler/planner/planner.go.
pub mod Preferences
pub mod Desired
pub mod Scale
pub mod Promise
mod Tests
