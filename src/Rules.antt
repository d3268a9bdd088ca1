-- ===== src/Rules.antt =====
-- src/rules.rs: selector rules, their patterns, and the rules file.
pub mod Glob
pub mod Pattern
pub mod Parse
use pbpp.Prelude.{ℕ, List, Option}
use pbpp.Text.{Text}
use pbpp.Span.{Span}
use pbpp.Sema.Kind.{SymKind}

pub data Polarity : Type 0 where
  keep drop drop_cascade : Polarity

pub data PatSeg : Type 0 where
  lit : Text → PatSeg
  star double_star : PatSeg

pub record Rule : Type 0 where
  pub polarity : Polarity
  pub pattern : List PatSeg
  pub kind : Option SymKind
  pub raw : Text
  pub span : Option Span

pub record RuleSet : Type 0 where
  pub rules : List Rule
  pub src : Option Text
