-- ===== src/Value.antt =====
-- src/value/: host values and the canonical Values that records hold.
pub mod Host
pub mod Kinds
pub mod Scalars
mod Tests
