-- ===== src/Prune/Visit/Messages.antt =====
-- src/prune.rs: what the visit of a message puts into the text.
use mathlib.Core.List.{append_assoc}
use pbpp.Prelude.{append_nil, ◌≡◌, ◌∙◌, sym, inl, inr, true, List, [], ◌++◌, Bool-cases}
use pbpp.Prelude.Int.{ℤ}
use pbpp.Cst.Nodes.{Meta, Word, IdxRange}
use pbpp.Cst.Decls.{Message, MsgItem, MsgItems, message_of, no_items, cons}
use pbpp.Prune.Visit.{
  Scope, Pruner, kept_node, delete_meta, sort_numbers, reservation, insert_reserved,
}
use pbpp.Prune.Visit.Items.{visit_message, visit_items, visit_item}
use pbpp.Prune.Visit.Reserved.{
  insert_reserved_lem, dropped_field, dropped_fields, visit_field-reserved, visit_oneof-reserved,
}
use pbpp.Prune.Visit.Enums.{over, visit_enum-reserved}

module _ (scope : Scope) where
  abbrev item_numbers : MsgItem → List ℤ
  item_numbers (MsgItem.field f) = dropped_field scope f
  item_numbers (MsgItem.oneof o) = dropped_fields scope o.body.items
  item_numbers (MsgItem.message m) = []
  item_numbers (MsgItem.enum e) = []
  item_numbers (MsgItem.option o) = []
  item_numbers (MsgItem.reserved r) = []

  -- The numbers of a message's own fields that go, those in its oneofs included.
  abbrev pub own_numbers : MsgItems → List ℤ
  own_numbers no_items = []
  own_numbers (cons i is) = item_numbers i ++ own_numbers is

  mutual
    unfolding visit_message insert_reserved delete_meta

    visit_message-reserved :
        (m : Message) (p : Pruner) → (visit_message scope m p).reserved ≡ p.reserved
    visit_message-reserved (message_of m name intro items dangling) p =
        elim (Bool-cases (kept_node scope m.id)) [
          | inl kept ↦ rw kept (
              rw (over (visit_items scope items p) _ (visit_items-reserved items p)) (
                rw (
                  insert_reserved_lem m p.reserved (own_numbers items)
                    (visit_items scope items p).edits)))
          | inr gone ↦ rw gone
        ]

    visit_items-reserved :
        (is : MsgItems) (p : Pruner)
        → (visit_items scope is p).reserved ≡ p.reserved ++ own_numbers is
    visit_items-reserved no_items p = sym (append_nil p.reserved)
    visit_items-reserved (cons i is) p =
        visit_items-reserved is (visit_item scope i p)
        ∙ rw (visit_item-reserved i p) (append_assoc p.reserved (item_numbers i) (own_numbers is))

    visit_item-reserved :
        (i : MsgItem) (p : Pruner) → (visit_item scope i p).reserved ≡ p.reserved ++ item_numbers i
    visit_item-reserved (MsgItem.field f) p = visit_field-reserved scope f p
    visit_item-reserved (MsgItem.oneof o) p = visit_oneof-reserved scope o p
    visit_item-reserved (MsgItem.message m) p =
        visit_message-reserved m p ∙ sym (append_nil p.reserved)
    visit_item-reserved (MsgItem.enum e) p =
        visit_enum-reserved scope e p ∙ sym (append_nil p.reserved)
    visit_item-reserved (MsgItem.option o) p = sym (append_nil p.reserved)
    visit_item-reserved (MsgItem.reserved r) p = sym (append_nil p.reserved)

  -- A kept message inserts, after the edits of its items, the sorted numbers of exactly its own
  -- fields that go, those in its oneofs included and those of nested messages and enums not; the
  -- stack of the enclosing scope is as before, however deep the nesting.
  pub visit_message-reserves :
      (m : Meta) (name : Word) (intro : IdxRange) (items : MsgItems) (dangling : IdxRange)
      (p : Pruner)
      → kept_node scope m.id ≡ true
      → ((visit_message scope (message_of m name intro items dangling) p).edits
          ≡ (visit_items scope items p).edits ++ reservation m (sort_numbers (own_numbers items)))
        × ((visit_message scope (message_of m name intro items dangling) p).reserved ≡ p.reserved)
  unfolding visit_message insert_reserved
  visit_message-reserves m name intro items dangling p k = (
    rw k (
        rw (over (visit_items scope items p) _ (visit_items-reserved items p)) (
          rw (
            insert_reserved_lem m p.reserved (own_numbers items)
              (visit_items scope items p).edits))),
    visit_message-reserved (message_of m name intro items dangling) p,
  )
