-- ===== src/Prune/Visit.antt =====
-- src/prune.rs: `Pruner`, which visits the items of one file and collects the edits to its text.
pub mod Items
pub mod Numbers
pub mod Reserved
pub mod Enums
pub mod Messages
use pbpp.Prelude.{
  ℕ, zero, suc, ◌-◌, ◌+◌, ◌/◌, ◌%◌, ◌^◌, min, max, Bool, true, false, not, ◌&&◌, ◌||◌, Option, none,
  some, List, [], ◌∷◌, ◌++◌, if◌then◌else◌, ltb, leb, ◌==◌, length, get_or, any, take, drop,
}
use pbpp.Prelude.Int.{cast_signed, ℤ, pos, negsuc, ℤ_eq, ℤ_leb}
use pbpp.Text.{Text, codes, text_eq}
use pbpp.Span.{Span}
use pbpp.Cst.Nodes.{Word, Meta, Block, Comment, slice}
use pbpp.Cst.Options.{OptNamePart, OptionStmt, ConstKind}
use pbpp.Cst.Decls.{
  Message, MsgItem, MsgItems, message_of, no_items, cons, Oneof, OneofItem, Enum, EnumItem,
  EnumValue, Service, SvcItem, Field,
}
use pbpp.Select.Selection.{Selected, is_kept}
use pbpp.Prune.Edits.{Bytes, Edit, del, ins}

-- What the visitor reads: the selection, the file's symbols by node, its comments and words.
pub record Scope : Type 0 where
  pub sel : Selected
  pub node_sym : List (Option ℕ)
  pub cs : List Comment
  pub segs : List Word

-- What it writes: the edits, and the stack of deleted numbers.
pub record Pruner : Type 0 where
  pub edits : List Edit
  pub reserved : List ℤ

-- `is_none_or(|s| sel.is_kept(s))`.
abbrev kept_symbol : Selected → Option ℕ → Bool
kept_symbol sel none = true
kept_symbol sel (some s) = is_kept sel s

unfoldable pub kept_node : Scope → ℕ → Bool
kept_node scope node = kept_symbol scope.sel (get_or scope.node_sym node none)

abbrev first_start : List Comment → ℕ → ℕ
first_start [] start = start
first_start (c ∷ cs) start = min start c.span.start

abbrev last_end : List Comment → ℕ → ℕ
last_end [] end = end
last_end (c ∷ []) end = max end c.span.end
last_end (c ∷ d ∷ cs) end = last_end (d ∷ cs) end

abbrev deletions : List Comment → List Edit
deletions [] = []
deletions (c ∷ cs) = del c.span ∷ deletions cs

-- The edits that `delete_meta` pushes.
unfoldable pub deleted : Scope → Meta → List Edit
unfolding slice
deleted scope m =
    del (record {
      start = first_start (slice m.leading scope.cs) m.span.start;
      end = last_end (slice m.trailing scope.cs) m.span.end;
    })
    ∷ deletions (slice m.detached scope.cs)

unfoldable pub delete_meta : Scope → Meta → Pruner → Pruner
delete_meta scope m p = record p { edits = p.edits ++ deleted scope m }

unfoldable pub push : ℤ → Pruner → Pruner
push n p = record p { reserved = p.reserved ++ n ∷ [] }

-- `sort_unstable`: equal numbers cannot be told apart.
unfoldable pub insert_number : ℤ → List ℤ → List ℤ
insert_number n [] = n ∷ []
insert_number n (m ∷ ms) = if ℤ_leb n m then n ∷ m ∷ ms else m ∷ insert_number n ms

unfoldable pub sort_numbers : List ℤ → List ℤ
unfolding insert_number
sort_numbers [] = []
sort_numbers (n ∷ ns) = insert_number n (sort_numbers ns)

-- `Display` of an `i64`: decimal digits, with enough fuel for them.
unfoldable pub digits : ℕ → ℕ → Bytes
digits zero n = []
digits (suc f) n =
    let front = digits f (n / 10) in if ltb n 10 then (48 + n) ∷ [] else front ++ (48 + n % 10) ∷ []

unfoldable pub show : ℤ → Bytes
unfolding digits
show (pos n) = digits (suc n) n
show (negsuc n) = b'-' ∷ digits (suc (suc n)) (suc n)

abbrev pub listing : List ℤ → Bytes
listing [] = []
listing (n ∷ []) = show n
listing (n ∷ m ∷ ns) = show n ++ (codes ", " ++ listing (m ∷ ns))

-- The edit of `insert_reserved`, for sorted numbers: in front of the closing brace.
unfoldable pub reservation : Meta → List ℤ → List Edit
reservation m [] = []
reservation m (n ∷ ns) =
    ins (m.span.end - 1) (codes "\nreserved " ++ (listing (n ∷ ns) ++ codes ";\n")) ∷ []

unfoldable pub insert_reserved : Meta → ℕ → Pruner → Pruner
unfolding reservation sort_numbers
insert_reserved m base p = if length p.reserved == base then p else record {
  edits = p.edits ++ reservation m (sort_numbers (drop base p.reserved));
  reserved = take base p.reserved;
}

module _ (scope : Scope) where
  abbrev field_kept : Field → Bool
  field_kept f = kept_node scope f.meta.id

  unfoldable pub count_fields : List OneofItem → ℕ
  count_fields [] = 0
  count_fields (OneofItem.field f ∷ is) = suc (count_fields is)
  count_fields (OneofItem.option o ∷ is) = count_fields is

  unfoldable pub count_dropped : List OneofItem → ℕ
  count_dropped [] = 0
  count_dropped (OneofItem.field f ∷ is) =
      if field_kept f then count_dropped is else suc (count_dropped is)
  count_dropped (OneofItem.option o ∷ is) = count_dropped is

  unfoldable pub push_fields : List OneofItem → Pruner → Pruner
  push_fields [] p = p
  push_fields (OneofItem.field f ∷ is) p = push_fields is (push (cast_signed f.number_val) p)
  push_fields (OneofItem.option o ∷ is) p = push_fields is p

  -- A field of a message or of a oneof that stays.
  unfoldable pub visit_field : Field → Pruner → Pruner
  unfolding delete_meta push
  visit_field f p =
      if field_kept f then p else push (cast_signed f.number_val) (delete_meta scope f.meta p)

  unfoldable pub visit_fields : List OneofItem → Pruner → Pruner
  visit_fields [] p = p
  visit_fields (OneofItem.field f ∷ is) p = visit_fields is (visit_field f p)
  visit_fields (OneofItem.option o ∷ is) p = visit_fields is p

  unfoldable pub visit_oneof : Oneof → Pruner → Pruner
  unfolding count_fields count_dropped push_fields visit_fields
  visit_oneof o p =
      if ltb 0 (count_fields o.body.items)
        && count_dropped o.body.items == count_fields o.body.items
      then push_fields o.body.items (delete_meta scope o.meta p)
      else visit_fields o.body.items p
