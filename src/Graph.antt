-- ===== src/Graph.antt =====
-- src/graph: differences between the records of images, and their merge.
pub mod Canonical
pub mod Rounds
pub mod Diff
pub mod Merge
pub mod References
pub mod Reachability
pub mod Roots
pub mod Collection
pub mod Queries
mod Tests
