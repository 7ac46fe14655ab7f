-- ===== src/Execution.antt =====
-- src/execution: what is lane-neutral in running code.
pub mod Conditions
