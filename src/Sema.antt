-- ===== src/Sema.antt =====
-- src/sema.rs: the symbol table and what is computed over it.
pub mod Kind
pub mod Symbols
pub mod Build
pub mod Children
pub mod Imports
pub mod Resolve
pub mod Lookup
pub mod Analyze
