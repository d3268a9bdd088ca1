-- ===== src/Sema/Build/Walk.antt =====
-- src/sema.rs: the walks that register the symbols of a file, and `collect_symbols`.
use pbpp.Prelude.{
  ℕ, zero, suc, ◌+◌, Bool, true, false, Option, none, some, List, [], ◌∷◌, ◌++◌, get_or, set,
  Result, ok, ◌>>=◌,
}
use pbpp.Prelude.Int.{cast_signed}
use pbpp.Cst.{File, Item}
use pbpp.Cst.Nodes.{Word, DottedPath, slice}
use pbpp.Cst.Decls.{
  TypeRef, Field, OneofItem, Enum, EnumItem, Message, MsgItem, MsgItems, message_of, no_items, cons,
  Service, SvcItem,
}
use pbpp.FileSet.{SetFile, FileSet}
use pbpp.Sema.Kind.{SymKind}
use pbpp.Sema.Build.{SemaError, Scope, Builder, ns_root, ns_intern, seg_mark, add_symbol}

unfoldable pub push_ref : ℕ → ℕ → DottedPath → Bool → Builder → Builder
push_ref owner file path message_only b = record b {
  pending =
      b.pending
      ++ record { owner = owner; file = file; path = path; message_only = message_only } ∷ [];
}

-- The reference of a field's type, the value type of a map's.
unfoldable pub push_type : ℕ → ℕ → TypeRef → Builder → Builder
unfolding push_ref
push_type owner file (TypeRef.scalar w) b = b
push_type owner file (TypeRef.named path) b = push_ref owner file path false b
push_type owner file (TypeRef.map_type key (TypeRef.named path) span) b =
    push_ref owner file path false b
push_type owner file (TypeRef.map_type key (TypeRef.scalar w) span) b = b
push_type owner file (TypeRef.map_type key (TypeRef.map_type k v s) span) b = b

module _ (file : ℕ) where
  unfoldable pub walk_field : Field → Scope → ℕ → Builder → Result SemaError Builder
  unfolding add_symbol push_type cast_signed
  walk_field f scope parent b =
      add_symbol file SymKind.field scope f.name f.meta.id (some parent)
        (some (cast_signed f.number_val)) b
      >>= λ added. ok (push_type added.id file f.ty added.builder)

  unfoldable pub walk_fields : List OneofItem → Scope → ℕ → Builder → Result SemaError Builder
  unfolding walk_field
  walk_fields [] scope parent b = ok b
  walk_fields (OneofItem.field f ∷ is) scope parent b =
      walk_field f scope parent b >>= walk_fields is scope parent
  walk_fields (OneofItem.option o ∷ is) scope parent b = walk_fields is scope parent b

  unfoldable pub walk_values : List EnumItem → Scope → ℕ → Builder → Result SemaError Builder
  unfolding add_symbol
  walk_values [] scope parent b = ok b
  walk_values (EnumItem.value v ∷ is) scope parent b =
      add_symbol file SymKind.enum_value scope v.name v.meta.id (some parent) (some v.number_val) b
      >>= λ added. walk_values is scope parent added.builder
  walk_values (EnumItem.option o ∷ is) scope parent b = walk_values is scope parent b
  walk_values (EnumItem.reserved r ∷ is) scope parent b = walk_values is scope parent b

  -- The symbol's id, and the builder.
  unfoldable pub walk_enum : Enum → Scope → Option ℕ → Builder → Result SemaError (ℕ × Builder)
  unfolding add_symbol walk_values
  walk_enum e scope parent b =
      add_symbol file SymKind.enum scope e.name e.meta.id parent none b >>= λ added.
      walk_values e.body.items added.inner added.id added.builder >>= λ b'. ok (added.id, b')

  unfoldable mutual
    unfolding add_symbol walk_field walk_fields walk_enum

    pub walk_message : Message → Scope → Option ℕ → Builder → Result SemaError (ℕ × Builder)
    walk_message (message_of m name intro items dangling) scope parent b =
        add_symbol file SymKind.message scope name m.id parent none b >>= λ added.
        walk_items items added.inner added.id added.builder >>= λ b'. ok (added.id, b')

    pub walk_items : MsgItems → Scope → ℕ → Builder → Result SemaError Builder
    walk_items no_items scope id b = ok b
    walk_items (cons i is) scope id b = walk_item i scope id b >>= walk_items is scope id

    pub walk_item : MsgItem → Scope → ℕ → Builder → Result SemaError Builder
    walk_item (MsgItem.field f) scope id b = walk_field f scope id b
    walk_item (MsgItem.oneof o) scope id b = walk_fields o.body.items scope id b
    walk_item (MsgItem.message m) scope id b = walk_message m scope (some id) b >>= λ r. ok r.1
    walk_item (MsgItem.enum e) scope id b = walk_enum e scope (some id) b >>= λ r. ok r.1
    walk_item (MsgItem.option o) scope id b = ok b
    walk_item (MsgItem.reserved r) scope id b = ok b

  unfoldable pub walk_rpcs : List SvcItem → Scope → ℕ → Builder → Result SemaError Builder
  unfolding add_symbol push_ref
  walk_rpcs [] scope parent b = ok b
  walk_rpcs (SvcItem.rpc r ∷ is) scope parent b =
      add_symbol file SymKind.method scope r.name r.meta.id (some parent) none b >>= λ added.
      walk_rpcs is scope parent
        (push_ref added.id file r.output true (push_ref added.id file r.input true added.builder))
  walk_rpcs (SvcItem.option o ∷ is) scope parent b = walk_rpcs is scope parent b

  unfoldable pub walk_service : Service → Scope → Builder → Result SemaError (ℕ × Builder)
  unfolding add_symbol walk_rpcs
  walk_service s scope b =
      add_symbol file SymKind.service scope s.name s.meta.id none none b >>= λ added.
      walk_rpcs s.body.items added.inner added.id added.builder >>= λ b'. ok (added.id, b')

  -- `file_top[idx].push(id)`.
  unfoldable pub push_top : ℕ × Builder → Builder
  push_top (id, b) = record b {
    sema = record b.sema {
      file_top = set b.sema.file_top file (get_or b.sema.file_top file [] ++ id ∷ []);
    };
  }

  unfoldable pub walk_top : Item → Scope → Builder → Result SemaError Builder
  unfolding walk_message walk_enum walk_service push_top
  walk_top (Item.message m) scope b = walk_message m scope none b >>= λ r. ok (push_top r)
  walk_top (Item.enum e) scope b = walk_enum e scope none b >>= λ r. ok (push_top r)
  walk_top (Item.service s) scope b = walk_service s scope b >>= λ r. ok (push_top r)
  walk_top (Item.syntax s) scope b = ok b
  walk_top (Item.package_decl p) scope b = ok b
  walk_top (Item.import i) scope b = ok b
  walk_top (Item.option o) scope b = ok b

  unfoldable pub walk_tops : List Item → Scope → Builder → Result SemaError Builder
  unfolding walk_top
  walk_tops [] scope b = ok b
  walk_tops (i ∷ is) scope b = walk_top i scope b >>= walk_tops is scope

-- The chain of a package's namespace nodes, its segments parked in the arena.
unfoldable pub enter_package : List Word → Scope → Builder → Scope × Builder
unfolding ns_intern
enter_package [] scope b = (scope, b)
enter_package (w ∷ ws) scope b =
    let (ns, b') = ns_intern scope.ns w.text b in
    enter_package ws (record scope { ns = ns; seg_len = scope.seg_len + 1 })
      (record b' { sema = record b'.sema { seg_arena = b'.sema.seg_arena ++ w.text ∷ [] } })

-- The segments of the first `package` declaration.
unfoldable pub package_words : List Word → List Item → List Word
unfolding slice
package_words segs [] = []
package_words segs (Item.package_decl p ∷ is) = slice p.path.segs segs
package_words segs (Item.syntax x ∷ is) = package_words segs is
package_words segs (Item.import x ∷ is) = package_words segs is
package_words segs (Item.option x ∷ is) = package_words segs is
package_words segs (Item.message x ∷ is) = package_words segs is
package_words segs (Item.enum x ∷ is) = package_words segs is
package_words segs (Item.service x ∷ is) = package_words segs is

-- `vec![None; n]`.
abbrev no_syms : ℕ → List (Option ℕ)
no_syms zero = []
no_syms (suc n) = none ∷ no_syms n

-- The file's rows of `node_sym` and `file_top`.
unfoldable pub open_file : File → Builder → Builder
open_file cst b = record b {
  sema = record b.sema {
    node_sym = b.sema.node_sym ++ no_syms cst.node_count ∷ [];
    file_top = b.sema.file_top ++ [] ∷ [];
  };
}

-- One round of the loop over the files.
unfoldable pub collect_file : ℕ → SetFile → Builder → Result SemaError Builder
unfolding open_file seg_mark enter_package package_words walk_tops
collect_file idx f b =
    let opened = open_file f.cst b in
    seg_mark opened >>= λ mark.
    (let (scope, entered) =
        enter_package (package_words f.cst.segs f.cst.top.items)
          (record { ns = ns_root; seg_start = mark; seg_len = 0 }) opened in
      walk_tops idx f.cst.top.items scope entered)

unfoldable pub collect_from : List SetFile → ℕ → Builder → Result SemaError Builder
unfolding collect_file
collect_from [] idx b = ok b
collect_from (f ∷ fs) idx b = collect_file idx f b >>= collect_from fs (suc idx)

unfoldable pub collect_symbols : FileSet → Builder → Result SemaError Builder
unfolding collect_from
collect_symbols fileset b = collect_from fileset.files 0 b
