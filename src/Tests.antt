-- ===== src/Tests.antt =====
-- Concrete inputs: tests of the definitions, and each theorem with hypotheses at an input.
pub mod Building
mod Resolving
mod Naming
mod Pipelines
mod RulesFile
pub mod Sample
mod Selecting
mod Globbing
mod Editing
mod Visiting
mod Importing
mod Patterns
mod Positions
mod Paths
mod WellKnown
