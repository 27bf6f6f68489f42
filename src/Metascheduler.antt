-- ===== src/Metascheduler.antt =====
-- python/metascheduler.py: the allocator that answers a request out of the resources of many nodes.
pub mod Base
pub mod Matching
pub mod Ordering
pub mod Prepare
pub mod Supply
pub mod Steps
pub mod Commit
pub mod Allocate
pub mod Managed
pub mod Growth
pub mod Owners
pub mod Committed
pub mod Safety
pub mod Samples
mod Examples
mod Runs
mod Histories
