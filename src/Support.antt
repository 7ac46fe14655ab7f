-- ===== src/Support.antt =====
-- src/support: the data structures and codecs that every other part is built on.
pub mod TupleMap
pub mod PortableBytes
pub mod Utf8
