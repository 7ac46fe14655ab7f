-- ===== src/Wasm.antt =====
-- src/wasm: the parts of the WebAssembly support that keep a state of their own.
pub mod InstancePool
