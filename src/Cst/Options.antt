-- ===== src/Cst/Options.antt =====
-- src/cst.rs: options and their values.
use pbpp.Prelude.{Bool, List}
use pbpp.Text.{Text}
use pbpp.Span.{Span}
use pbpp.Cst.Nodes.{IdxRange, Word, Meta, DottedPath}

pub data OptNamePart : Type 0 where
  ident : Word → OptNamePart
  ext : DottedPath → Span → OptNamePart

pub record OptionName : Type 0 where
  pub first : OptNamePart
  pub rest : List OptNamePart
  pub span : Span

pub data Sign : Type 0 where
  none_written positive negative : Sign

pub record StrLit : Type 0 where
  pub parts : IdxRange
  pub span : Span

pub data TextName : Type 0 where
  ident : Word → TextName
  bracket : Text → Span → TextName

-- The aggregates. A block is the comments in front of its items, the items, and the comments
-- behind them.
mutual
  -- Its span, its body's block, and `has_comments`.
  pub data TextMsg : Type 0 where
    text_msg : Span → IdxRange → TextFields → IdxRange → Bool → TextMsg

  pub data TextFields : Type 0 where
    no_fields : TextFields
    field : Meta → TextName → TextVal → TextFields → TextFields

  pub data TextVal : Type 0 where
    scalar : Sign → Word → TextVal
    str : StrLit → TextVal
    msg : TextMsg → TextVal
    list : TextVals → Span → TextVal

  pub data TextVals : Type 0 where
    no_vals : TextVals
    val : TextVal → TextVals → TextVals

pub data ConstKind : Type 0 where
  path : DottedPath → ConstKind
  num : Sign → Word → ConstKind
  str : StrLit → ConstKind
  aggregate : TextMsg → ConstKind

pub record Constant : Type 0 where
  pub span : Span
  pub kind : ConstKind

pub record OptionStmt : Type 0 where
  pub meta : Meta
  pub name : OptionName
  pub value : Constant

pub record FieldOpt : Type 0 where
  pub name : OptionName
  pub value : Constant
  pub span : Span
