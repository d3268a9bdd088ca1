-- ===== src/Select.antt =====
-- src/select.rs: marks, decisions, the closure over references, and the selection as a whole.
pub mod Mark
pub mod Decide
pub mod Closure
pub mod Selection
