-- ===== src/Sema/Build.antt =====
-- src/sema.rs: the builder of the symbol table, and how a symbol is registered.
pub mod Walk
pub mod Names
pub mod Naming
pub mod Invariant
pub mod Register
pub mod Collect
pub mod Files
use pbpp.Prelude.{
  ℕ, suc, ◌+◌, ◌^◌, Bool, true, false, ◌&&◌, Option, none, some, List, [], ◌∷◌, ◌++◌, if◌then◌else◌,
  leb, ◌==◌, get_or, set, length, Result, ok, err, ◌>>=◌,
}
use pbpp.Prelude.Int.{ℤ}
use pbpp.Text.{Text, codes, text_eq}
use pbpp.Span.{Span}
use pbpp.Cst.Nodes.{Word, DottedPath}
use pbpp.Sema.Kind.{SymKind}
use pbpp.Sema.Symbols.{Sema, Symbol, NsNode, slice, sym_count, blank_node}
use pbpp.Wkt.{WktType, types}

-- What an error of `analyze` is about; the texts are made from it.
pub data SemaError : Type 0 where
  too_large : SemaError
  -- The file, the place of the name, and the symbol that is there already.
  duplicate : ℕ → Span → ℕ → SemaError
  -- The file, and the path and place of the import.
  missing_import : ℕ → Text → Span → SemaError
  -- The file, the place of the reference, the name of a scope that its first segment named.
  unresolved : ℕ → Span → Option ℕ → SemaError
  -- The file, the place of the reference, its target.
  wrong_kind : ℕ → Span → ℕ → SemaError
  not_visible : ℕ → Span → ℕ → SemaError

pub record PendingRef : Type 0 where
  pub owner : ℕ
  pub file : ℕ
  pub path : DottedPath
  pub message_only : Bool

pub record Scope : Type 0 where
  pub ns : ℕ
  pub seg_start : ℕ
  pub seg_len : ℕ

pub record Builder : Type 0 where
  pub sema : Sema
  pub pending : List PendingRef

-- `NS_ROOT`.
abbrev pub ns_root : ℕ
ns_root = 0

unfoldable pub node : Sema → ℕ → NsNode
node sema n = get_or sema.ns_nodes n blank_node

-- `ns_index.get`.
unfoldable pub find_ns : List ((ℕ × Text) × ℕ) → ℕ → Text → Option ℕ
find_ns [] parent name = none
find_ns (((p, t), n) ∷ index) parent name =
    if p == parent && text_eq t name then some n else find_ns index parent name

-- `Sema::ns_child`.
unfoldable pub ns_child : Sema → ℕ → Text → Option ℕ
unfolding find_ns
ns_child sema parent name = find_ns sema.ns_index parent name

-- `u32::try_from(len)`.
unfoldable pub seg_mark : Builder → Result SemaError ℕ
seg_mark b =
    if leb (2 ^ 32) (length b.sema.seg_arena) then err too_large else ok (length b.sema.seg_arena)

unfoldable pub new_node : Option ℕ → ℕ → Text → Builder → ℕ × Builder
new_node (some id) parent name b = (id, b)
new_node none parent name b =
    let id = length b.sema.ns_nodes in
    (
      id,
      record b {
        sema = record b.sema {
          ns_nodes = b.sema.ns_nodes ++ record { parent = parent; name = name; sym = none } ∷ [];
          ns_index = ((parent, name), id) ∷ b.sema.ns_index;
        };
      },
    )

unfoldable pub ns_intern : ℕ → Text → Builder → ℕ × Builder
unfolding new_node ns_child
ns_intern parent name b = new_node (ns_child b.sema parent name) parent name b

-- `ns_nodes[ns].sym = Some(id)` and `symbols.push(symbol)`, with the segments of the symbol behind
-- the arena.
unfoldable pub define : ℕ → List Text → Symbol → Builder → Builder
unfolding node
define ns segs symbol b = record b {
  sema = record b.sema {
    symbols = b.sema.symbols ++ symbol ∷ [];
    seg_arena = b.sema.seg_arena ++ segs;
    ns_nodes = set b.sema.ns_nodes ns (record (node b.sema ns) { sym = some (sym_count b.sema) });
  };
}

abbrev pub kind_of : WktType → SymKind
kind_of t = if t.is_enum then SymKind.enum else SymKind.message

-- One round of `add_wkt_builtins`.
unfoldable pub add_builtin : ℕ → WktType → Builder → Builder
unfolding ns_intern define
add_builtin protobuf t b =
    let (ns, b') = ns_intern protobuf t.name b in
    define ns (codes "google" ∷ codes "protobuf" ∷ t.name ∷ [])
      (record {
        kind = kind_of t;
        seg_start = length b'.sema.seg_arena;
        seg_len = 3;
        ns = ns;
        file = none;
        parent = none;
        name_span = record { start = 0; end = 0 };
        number = none;
        wkt_path = some t.file;
      })
      b'

unfoldable pub add_builtins : ℕ → List WktType → Builder → Builder
unfolding add_builtin
add_builtins protobuf [] b = b
add_builtins protobuf (t ∷ ts) b = add_builtins protobuf ts (add_builtin protobuf t b)

unfoldable pub add_wkt_builtins : Builder → Builder
unfolding add_builtins ns_intern
add_wkt_builtins b =
    let (google, b') = ns_intern ns_root (codes "google") b in
    let (protobuf, b'') = ns_intern google (codes "protobuf") b' in add_builtins protobuf types b''

-- The new symbol, the scope in it, and the builder.
pub record Added : Type 0 where
  pub id : ℕ
  pub inner : Scope
  pub builder : Builder

-- `node_sym[file][node] = Some(id)`.
abbrev set_node : ℕ → ℕ → ℕ → Builder → Builder
set_node file node_id id b = record b {
  sema = record b.sema {
    node_sym = set b.sema.node_sym file (set (get_or b.sema.node_sym file []) node_id (some id));
  };
}

module _ (file : ℕ) (kind : SymKind) (scope : Scope) (name : Word) (node_id : ℕ) (parent : Option ℕ)
    (number : Option ℤ) where
  -- The symbol registered at the node `ns`, its segments at `seg_start`.
  unfoldable pub registered : ℕ → ℕ → Builder → Added
  unfolding define slice
  registered ns seg_start b =
      let id = sym_count b.sema in
      record {
        id = id;
        inner = record { ns = ns; seg_start = seg_start; seg_len = scope.seg_len + 1 };
        builder = set_node file node_id id (
            define ns
              (slice b.sema.seg_arena scope.seg_start (scope.seg_start + scope.seg_len)
                ++ name.text ∷ [])
              (record {
                kind = kind;
                seg_start = seg_start;
                seg_len = scope.seg_len + 1;
                ns = ns;
                file = some file;
                parent = parent;
                name_span = name.span;
                number = number;
                wkt_path = none;
              })
              b);
      }

  -- From the lookup of the namespace node on: the node, the symbol defined there if any.
  unfoldable pub add_at : ℕ → Option ℕ → Builder → Result SemaError Added
  unfolding seg_mark registered
  add_at ns (some prev) b = err (duplicate file name.span prev)
  add_at ns none b = seg_mark b >>= λ seg_start. ok (registered ns seg_start b)

  unfoldable pub add_symbol : Builder → Result SemaError Added
  unfolding add_at ns_intern node
  add_symbol b = let (ns, b') = ns_intern scope.ns name.text b in add_at ns (node b'.sema ns).sym b'
