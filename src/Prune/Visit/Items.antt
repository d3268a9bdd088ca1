-- ===== src/Prune/Visit/Items.antt =====
-- src/prune.rs: the visits of enums, services and messages.
use pbpp.Prelude.{
  ℕ, Bool, true, false, not, ◌&&◌, ◌||◌, Option, none, some, List, [], ◌∷◌, ◌++◌, if◌then◌else◌,
  ltb, length, take, drop,
}
use pbpp.Prelude.Int.{ℤ, ℤ_eq}
use pbpp.Text.{Text, codes, text_eq}
use pbpp.Cst.Nodes.{Word, slice}
use pbpp.Cst.Options.{OptNamePart, OptionStmt, ConstKind}
use pbpp.Cst.Decls.{
  Message, MsgItem, MsgItems, message_of, no_items, cons, Enum, EnumItem, EnumValue, Service,
  SvcItem,
}
use pbpp.Prune.Visit.{
  Scope, Pruner, kept_node, delete_meta, push, sort_numbers, insert_reserved, visit_field,
  visit_oneof,
}

abbrev is_word : Text → List Word → Bool
is_word text [] = false
is_word text (w ∷ []) = text_eq w.text text
is_word text (w ∷ v ∷ ws) = false

abbrev is_true_path : List Word → ConstKind → Bool
is_true_path segs (ConstKind.path p) =
    not p.leading_dot && is_word (codes "true") (slice p.segs segs)
is_true_path segs (ConstKind.num sign w) = false
is_true_path segs (ConstKind.str s) = false
is_true_path segs (ConstKind.aggregate m) = false

abbrev is_allow_alias : OptNamePart → Bool
is_allow_alias (OptNamePart.ident w) = text_eq w.text (codes "allow_alias")
is_allow_alias (OptNamePart.ext p s) = false

abbrev is_nil : List OptNamePart → Bool
is_nil [] = true
is_nil (x ∷ xs) = false

unfoldable pub is_allow_alias_true : OptionStmt → List Word → Bool
unfolding text_eq slice
is_allow_alias_true o segs =
    is_nil o.name.rest && (is_allow_alias o.name.first && is_true_path segs o.value.kind)

abbrev pub is_last : Option ℤ → ℤ → Bool
is_last none n = false
is_last (some m) n = ℤ_eq m n

module _ (scope : Scope) where
  abbrev pub value_kept : EnumValue → Bool
  value_kept v = kept_node scope v.meta.id

  -- Some kept value among the items has the number.
  unfoldable pub is_alive : List EnumItem → ℤ → Bool
  is_alive [] n = false
  is_alive (EnumItem.value v ∷ is) n = (ℤ_eq v.number_val n && value_kept v) || is_alive is n
  is_alive (EnumItem.option o ∷ is) n = is_alive is n
  is_alive (EnumItem.reserved r ∷ is) n = is_alive is n

  unfoldable pub kept_values_alias : List EnumItem → Bool
  unfolding is_alive
  kept_values_alias [] = false
  kept_values_alias (EnumItem.value v ∷ is) =
      (value_kept v && is_alive is v.number_val) || kept_values_alias is
  kept_values_alias (EnumItem.option o ∷ is) = kept_values_alias is
  kept_values_alias (EnumItem.reserved r ∷ is) = kept_values_alias is

  unfoldable pub visit_value : EnumValue → Pruner → Pruner
  unfolding delete_meta push
  visit_value v p = if value_kept v then p else push v.number_val (delete_meta scope v.meta p)

  unfoldable pub visit_values : List EnumItem → Pruner → Pruner
  unfolding visit_value
  visit_values [] p = p
  visit_values (EnumItem.value v ∷ is) p = visit_values is (visit_value v p)
  visit_values (EnumItem.option o ∷ is) p = visit_values is p
  visit_values (EnumItem.reserved r ∷ is) p = visit_values is p

  -- The flag `deleted_any` after the loop over the values.
  unfoldable pub deletes_any : List EnumItem → Bool
  deletes_any [] = false
  deletes_any (EnumItem.value v ∷ is) = not (value_kept v) || deletes_any is
  deletes_any (EnumItem.option o ∷ is) = deletes_any is
  deletes_any (EnumItem.reserved r ∷ is) = deletes_any is

  unfoldable pub delete_switch : OptionStmt → Pruner → Pruner
  unfolding delete_meta is_allow_alias_true
  delete_switch o p = if is_allow_alias_true o scope.segs then delete_meta scope o.meta p else p

  unfoldable pub delete_allow_alias : List EnumItem → Pruner → Pruner
  unfolding delete_switch
  delete_allow_alias [] p = p
  delete_allow_alias (EnumItem.option o ∷ is) p = delete_allow_alias is (delete_switch o p)
  delete_allow_alias (EnumItem.value v ∷ is) p = delete_allow_alias is p
  delete_allow_alias (EnumItem.reserved r ∷ is) p = delete_allow_alias is p

  -- The deletions of a kept enum: its values, and the switch that has lost its use.
  unfoldable pub clean_enum : List EnumItem → Pruner → Pruner
  unfolding visit_values deletes_any kept_values_alias delete_allow_alias
  clean_enum items p =
      if deletes_any items && not (kept_values_alias items)
      then delete_allow_alias items (visit_values items p)
      else visit_values items p

  -- The compaction in place of the sorted tail: `last` is the number written last.
  unfoldable pub compact : List EnumItem → Option ℤ → List ℤ → List ℤ
  unfolding is_alive
  compact items last [] = []
  compact items last (n ∷ ns) =
      if is_last last n || is_alive items n
      then compact items last ns
      else n ∷ compact items (some n) ns

  unfoldable pub compact_tail : List EnumItem → ℕ → Pruner → Pruner
  unfolding compact sort_numbers
  compact_tail items base p =
      if ltb base (length p.reserved)
      then record p {
        reserved = take base p.reserved ++ compact items none (sort_numbers (drop base p.reserved));
      }
      else p

  unfoldable pub visit_enum : Enum → Pruner → Pruner
  unfolding kept_node delete_meta clean_enum compact_tail insert_reserved
  visit_enum e p =
      if kept_node scope e.meta.id
      then insert_reserved e.meta (length p.reserved)
          (compact_tail e.body.items (length p.reserved) (clean_enum e.body.items p))
      else delete_meta scope e.meta p

  visit_rpcs : List SvcItem → Pruner → Pruner
  visit_rpcs [] p = p
  visit_rpcs (SvcItem.rpc r ∷ is) p =
      visit_rpcs is (if kept_node scope r.meta.id then p else delete_meta scope r.meta p)
  visit_rpcs (SvcItem.option o ∷ is) p = visit_rpcs is p

  unfoldable pub visit_service : Service → Pruner → Pruner
  unfolding visit_rpcs delete_meta
  visit_service s p =
      if kept_node scope s.meta.id then visit_rpcs s.body.items p else delete_meta scope s.meta p

  unfoldable mutual
    unfolding delete_meta kept_node visit_field visit_oneof visit_enum insert_reserved

    pub visit_message : Message → Pruner → Pruner
    visit_message (message_of m name intro items dangling) p =
        let visited = visit_items items p in
        if kept_node scope m.id
        then insert_reserved m (length p.reserved) visited
        else delete_meta scope m p

    pub visit_items : MsgItems → Pruner → Pruner
    visit_items no_items p = p
    visit_items (cons i is) p = visit_items is (visit_item i p)

    pub visit_item : MsgItem → Pruner → Pruner
    visit_item (MsgItem.field f) p = visit_field scope f p
    visit_item (MsgItem.oneof o) p = visit_oneof scope o p
    visit_item (MsgItem.message m) p = visit_message m p
    visit_item (MsgItem.enum e) p = visit_enum e p
    visit_item (MsgItem.option o) p = p
    visit_item (MsgItem.reserved r) p = p
