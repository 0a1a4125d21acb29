-- ===== src/Sync.antt =====
-- The sync controller, pkg/controllers/sync: so far the status that it writes.
pub mod Status
mod Tests
