-- ===== src/Graph/Merge.antt =====
-- src/graph/merge.js: the three-way merge of the records of an image.
pub mod Values
pub mod Rehome
pub mod Objects
pub mod Records
pub mod Plan
pub mod Apply
