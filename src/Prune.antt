-- ===== src/Prune.antt =====
-- src/prune.rs: edits of a file's text, the visit of its definitions, imports, and the whole prune.
pub mod Edits
pub mod Visit
pub mod Imports
