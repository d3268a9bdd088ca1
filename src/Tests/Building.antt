-- ===== src/Tests/Building.antt =====
-- The analysis of three files: `m.proto`, with `package a; message A { B b = 1; }`, imports
-- `p.proto`, which publicly imports `q.proto`, which holds `package a; message B {}` and publicly
-- imports `p.proto` again.
use pbpp.Prelude.{
  arith, ◌≡◌, refl, ◌↔◌, ◌<◌, ℕ, Bool, false, true, none, List, [], ◌∷◌, length, get_or, In, Result,
  ok, err,
}
use pbpp.Text.{Text, codes}
use pbpp.Span.{Span}
use pbpp.Cst.{Item, ImportKind}
use pbpp.Cst.Nodes.{Meta, Word, IdxRange, DottedPath}
use pbpp.Cst.Decls.{TypeRef, MsgItem, message_of, no_items, cons}
use pbpp.FileSet.{SetFile, FileSet}
use pbpp.Sema.Symbols.{Sema, sym_count, IsWellFormed}
use pbpp.Sema.Build.{SemaError}
use pbpp.Sema.Imports.{nothing_provided}
use pbpp.Sema.Imports.Written.{Reaches, ImportsWkt}
use pbpp.Sema.Analyze.Provides.{analyze-Publishes}
use pbpp.Sema.Analyze.{start, analyze}
use pbpp.Sema.Analyze.WellFormed.{analyze-IsWellFormed}

abbrev at_byte : ℕ → Span
at_byte n = record { start = n; end = n }

abbrev empty_range : IdxRange
empty_range = record { start = 0; len = 0 }

abbrev meta_of : ℕ → Meta
meta_of id = record {
  id = id;
  span = at_byte id;
  blank_before = false;
  leading = empty_range;
  trailing = empty_range;
  detached = empty_range;
}

abbrev pub word : Text → Word
word text = record { text = text; span = at_byte 0 }

abbrev pub path_at : ℕ → DottedPath
path_at start = record {
  leading_dot = false;
  segs = record { start = start; len = 1 };
  span = at_byte 9;
}

abbrev import_of : ImportKind → Text → Item
import_of kind inner =
    Item.import (record { meta = meta_of 0; kind = kind; path = word inner; path_inner = inner })

abbrev package_a : Item
package_a = Item.package_decl (record { meta = meta_of 1; path = path_at 0 })

abbrev pub file_of : Text → List Word → List Item → ℕ → SetFile
file_of path segs items count = record {
  path = path;
  src = [];
  cst = record {
    src = [];
    comments = [];
    segs = segs;
    top = record { intro = empty_range; items = items; dangling = empty_range };
    node_count = count;
  };
}

abbrev pub message_b : Item
message_b =
    Item.message (message_of (meta_of 2) (word (codes "B")) empty_range no_items empty_range)

abbrev field_b : MsgItem
field_b = MsgItem.field (record {
  meta = meta_of 3;
  label = none;
  ty = TypeRef.named (path_at 1);
  name = word (codes "b");
  number = word (codes "1");
  number_val = 1;
  options = [];
})

abbrev message_a : Item
message_a =
    Item.message
      (message_of (meta_of 2) (word (codes "A")) empty_range (cons field_b no_items) empty_range)

abbrev pub three_files : FileSet
three_files = record {
  files =
      file_of (codes "m.proto") (word (codes "a") ∷ word (codes "B") ∷ [])
        (import_of ImportKind.plain (codes "p.proto") ∷ package_a ∷ message_a ∷ []) 4
      ∷ file_of (codes "p.proto") [] (import_of ImportKind.public (codes "q.proto") ∷ []) 1
      ∷ file_of (codes "q.proto") (word (codes "a") ∷ [])
          (import_of ImportKind.public (codes "p.proto") ∷ package_a ∷ message_b ∷ []) 3
      ∷ [];
}

abbrev table_of : Result SemaError Sema → Sema
table_of (ok sema) = sema
table_of (err e) = start.sema

unfoldable pub table : Sema
table = table_of (analyze three_files)

succeeds : Result SemaError Sema → Bool
succeeds (ok sema) = true
succeeds (err e) = false

table_of_lem : (r : Result SemaError Sema) → succeeds r ≡ true → r ≡ ok (table_of r)
unfolding succeeds
table_of_lem (ok sema) h = refl
table_of_lem (err e) h = cc

analysis_succeeds : succeeds (analyze three_files) ≡ true
unfolding succeeds analyze sym_count
analysis_succeeds = refl

pub analyzed : analyze three_files ≡ ok table
unfolding table
analyzed = table_of_lem (analyze three_files) analysis_succeeds

symbols_counted : sym_count table ≡ 33
unfolding table analyze sym_count
symbols_counted = refl

analyze-IsWellFormed_example : IsWellFormed table
analyze-IsWellFormed_example = analyze-IsWellFormed three_files table analyzed

two_is_input : 2 < length three_files.files
two_is_input = omega arith

analyze-Publishes_example :
    let set = get_or table.provides 2 nothing_provided in
    ((g : ℕ) → In g set.0 ↔ Reaches three_files 2 g)
    × ((w : Text) → In w set.1 ↔ ((g : ℕ) × Reaches three_files 2 g × ImportsWkt three_files g w))
analyze-Publishes_example = analyze-Publishes three_files table analyzed 2 two_is_input

provided_in_cycle : get_or table.provides 1 nothing_provided ≡ (2 ∷ 1 ∷ [], [])
unfolding table analyze sym_count
provided_in_cycle = refl
