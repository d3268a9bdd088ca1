-- ===== src/Cst.antt =====
-- src/cst.rs: the tree of a parsed file. Text is a list of code points; a `NodeId` is its index.
pub mod Nodes
pub mod Options
pub mod Decls
use pbpp.Prelude.{ℕ, List}
use pbpp.Text.{Text}
use pbpp.Cst.Nodes.{Word, Meta, Block, DottedPath, Comment}
use pbpp.Cst.Options.{OptionStmt}
use pbpp.Cst.Decls.{Message, Enum, Service}

pub record Syntax : Type 0 where
  pub meta : Meta
  pub value : Word

pub record Package : Type 0 where
  pub meta : Meta
  pub path : DottedPath

pub data ImportKind : Type 0 where
  plain public weak : ImportKind

pub record Import : Type 0 where
  pub meta : Meta
  pub kind : ImportKind
  pub path : Word
  pub path_inner : Text

pub data Item : Type 0 where
  syntax : Syntax → Item
  package_decl : Package → Item
  import : Import → Item
  option : OptionStmt → Item
  message : Message → Item
  enum : Enum → Item
  service : Service → Item

pub record File : Type 0 where
  pub src : Text
  pub comments : List Comment
  pub segs : List Word
  pub top : Block Item
  pub node_count : ℕ
