-- ===== src/Cst/Decls.antt =====
-- src/cst.rs: messages, oneofs, enums, services and what they hold.
use pbpp.Prelude.{ℕ, Bool, List, Option}
use pbpp.Prelude.Int.{ℤ}
use pbpp.Text.{Text, codes}
use pbpp.Span.{Span}
use pbpp.Cst.Nodes.{IdxRange, Word, Meta, Block, DottedPath}
use pbpp.Cst.Options.{OptionStmt, FieldOpt}

pub data LabelKind : Type 0 where
  repeated optional : LabelKind

-- `LabelKind::text`.
abbrev pub label_text : LabelKind → Text
label_text LabelKind.repeated = codes "repeated"
label_text LabelKind.optional = codes "optional"

pub record Label : Type 0 where
  pub kind : LabelKind
  pub span : Span

-- The map type `MapType` stands in its constructor: key, value and span.
pub data TypeRef : Type 0 where
  scalar : Word → TypeRef
  named : DottedPath → TypeRef
  map_type : Word → TypeRef → Span → TypeRef

pub record Field : Type 0 where
  pub meta : Meta
  pub label : Option Label
  pub ty : TypeRef
  pub name : Word
  pub number : Word
  pub number_val : ℕ
  pub options : List FieldOpt

pub data OneofItem : Type 0 where
  field : Field → OneofItem
  option : OptionStmt → OneofItem

pub record Oneof : Type 0 where
  pub meta : Meta
  pub name : Word
  pub body : Block OneofItem

pub data ResEnd : Type 0 where
  num : Bool → Word → ℤ → ResEnd
  max_word : Span → ResEnd

pub record ResRange : Type 0 where
  pub start_neg : Bool
  pub start : Word
  pub start_val : ℤ
  pub end : Option ResEnd

pub data ReservedKind : Type 0 where
  ranges : List ResRange → ReservedKind
  names : List Word → ReservedKind

pub record Reserved : Type 0 where
  pub meta : Meta
  pub kind : ReservedKind

pub record EnumValue : Type 0 where
  pub meta : Meta
  pub name : Word
  pub negative : Bool
  pub number : Word
  pub number_val : ℤ
  pub options : List FieldOpt

pub data EnumItem : Type 0 where
  value : EnumValue → EnumItem
  option : OptionStmt → EnumItem
  reserved : Reserved → EnumItem

pub record Enum : Type 0 where
  pub meta : Meta
  pub name : Word
  pub body : Block EnumItem

mutual
  -- Its meta, its name and its body's block.
  pub data Message : Type 0 where
    message_of : Meta → Word → IdxRange → MsgItems → IdxRange → Message

  pub data MsgItems : Type 0 where
    no_items : MsgItems
    cons : MsgItem → MsgItems → MsgItems

  pub data MsgItem : Type 0 where
    field : Field → MsgItem
    oneof : Oneof → MsgItem
    message : Message → MsgItem
    enum : Enum → MsgItem
    option : OptionStmt → MsgItem
    reserved : Reserved → MsgItem

pub data RpcItem : Type 0 where
  option : OptionStmt → RpcItem

pub record Rpc : Type 0 where
  pub meta : Meta
  pub name : Word
  pub client_stream : Bool
  pub input : DottedPath
  pub server_stream : Bool
  pub output : DottedPath
  pub body : Option (Block RpcItem)

pub data SvcItem : Type 0 where
  rpc : Rpc → SvcItem
  option : OptionStmt → SvcItem

pub record Service : Type 0 where
  pub meta : Meta
  pub name : Word
  pub body : Block SvcItem
