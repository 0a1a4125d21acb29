-- ===== src/Follower.antt =====
-- The follower controller, pkg/controllers/follower: so far the cache of who follows whom.
pub mod Cache
mod Tests
