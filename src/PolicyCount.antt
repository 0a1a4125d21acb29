-- ===== src/PolicyCount.antt =====
-- The policy count controller, pkg/controllers/policyrc: so far the counter that it keeps.
pub mod Counter
mod Tests
