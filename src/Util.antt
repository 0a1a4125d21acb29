-- ===== src/Util.antt =====
-- The utilities of pkg/util that the controllers share.
pub mod Bijection
pub mod MultiMap
pub mod Annotation
pub mod PendingControllers
pub mod ClusterSelector
pub mod Finalizers
mod Tests
