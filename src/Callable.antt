-- ===== src/Callable.antt =====
-- src/callable/: the types of a callable interface, and the bytes that carry values of them.
mod Tests
pub mod TypeGrammar
pub mod BigEndian
pub mod Buffers
pub mod PrimitiveCodec
pub mod CompositeCodec
pub mod Typed
pub mod Declarations
pub mod Fingerprint
pub mod Envelope
