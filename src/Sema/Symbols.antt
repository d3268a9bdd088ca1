-- ===== src/Sema/Symbols.antt =====
-- src/sema.rs: symbols, references, the namespace tree's nodes, the record `Sema` and its accessors.
-- An id (`SymId`, `FileId`, `NsId`, `NodeId`) is the index that its `index()` returns.
use pbpp.Prelude.{
  ℕ, suc, ◌+◌, ◌-◌, ◌<◌, ◌≡◌, true, Option, none, some, List, [], length, get_or, take, drop, In,
}
use pbpp.Prelude.Int.{ℤ}
use pbpp.Text.{Text, join}
use pbpp.Span.{Span}
use pbpp.Sema.Kind.{SymKind, is_def}

pub record Ref : Type 0 where
  pub span : Span
  pub target : ℕ

pub record Symbol : Type 0 where
  pub kind : SymKind
  pub seg_start : ℕ
  pub seg_len : ℕ
  pub ns : ℕ
  pub file : Option ℕ
  pub parent : Option ℕ
  pub name_span : Span
  pub number : Option ℤ
  pub wkt_path : Option Text

pub record NsNode : Type 0 where
  pub parent : ℕ
  pub name : Text
  pub sym : Option ℕ

-- The hash sets of `provides` are lists without order; `ns_index` is an association list.
pub record Sema : Type 0 where
  pub symbols : List Symbol
  pub seg_arena : List Text
  pub ns_nodes : List NsNode
  pub ns_index : List ((ℕ × Text) × ℕ)
  pub file_top : List (List ℕ)
  pub node_sym : List (List (Option ℕ))
  pub children_arena : List ℕ
  pub children_off : List ℕ
  pub refs_arena : List Ref
  pub refs_off : List ℕ
  pub provides : List (List ℕ × List Text)

-- What a read out of range gives here; the source panics there.
abbrev pub blank_symbol : Symbol
blank_symbol = record {
  kind = SymKind.enum_value;
  seg_start = 0;
  seg_len = 0;
  ns = 0;
  file = none;
  parent = none;
  name_span = record { start = 0; end = 0 };
  number = none;
  wkt_path = none;
}

abbrev pub blank_node : NsNode
blank_node = record { parent = 0; name = []; sym = none }

-- `&arena[a..b]`.
unfoldable pub slice {ℓ} : {A : Type ℓ} → List A → ℕ → ℕ → List A
slice arena a b = take (b - a) (drop a arena)

unfoldable pub sym_count : Sema → ℕ
sym_count sema = length sema.symbols

unfoldable pub sym : Sema → ℕ → Symbol
sym sema i = get_or sema.symbols i blank_symbol

unfoldable pub segs : Sema → ℕ → List Text
unfolding slice sym
segs sema i =
    slice sema.seg_arena (sym sema i).seg_start ((sym sema i).seg_start + (sym sema i).seg_len)

unfoldable pub children : Sema → ℕ → List ℕ
unfolding slice
children sema i =
    slice sema.children_arena (get_or sema.children_off i 0) (get_or sema.children_off (suc i) 0)

unfoldable pub refs : Sema → ℕ → List Ref
unfolding slice
refs sema i = slice sema.refs_arena (get_or sema.refs_off i 0) (get_or sema.refs_off (suc i) 0)

-- `Sema::fq`: the dotted name.
unfoldable pub fq : Sema → ℕ → Text
unfolding segs join
fq sema i = join b'.' (segs sema i)

-- What the symbol table of `analyze` guarantees of ids: they are in range, parents come before
-- their children, a child names its parent, and parents and the targets of references are
-- definitions.
pub record IsWellFormed (sema : Sema) : Type 0 where
  pub parent_lt : (i p : ℕ) → (sym sema i).parent ≡ some p → p < i
  pub child_parent : (i c : ℕ) → In c (children sema i) → (sym sema c).parent ≡ some i
  pub child_lt : (i c : ℕ) → In c (children sema i) → c < sym_count sema
  pub target_lt : (i : ℕ) (r : Ref) → In r (refs sema i) → r.target < sym_count sema
  pub parent_is_def : (i p : ℕ) → (sym sema i).parent ≡ some p → is_def (sym sema p).kind ≡ true
  pub target_is_def :
      (i : ℕ) (r : Ref) → In r (refs sema i) → is_def (sym sema r.target).kind ≡ true
