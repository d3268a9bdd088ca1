-- ===== src/Tests/Visiting.antt =====
-- The visits of an enum with aliases and of a message with fields and an enum, of which some stay.
use pbpp.Prelude.{
  ◌≡◌, refl, ◌↔◌, ℕ, suc, ltb, if◌then◌else◌, true, false, none, some, List, [], ◌∷◌, ◌++◌, In,
}
use pbpp.Prelude.Int.{cast_signed, ℤ, pos}
use pbpp.Text.{Text, codes}
use pbpp.Span.{Span}
use pbpp.Cst.Nodes.{Meta, Word, IdxRange}
use pbpp.Cst.Decls.{Enum, EnumItem, TypeRef, MsgItem, MsgItems, message_of, no_items, cons}
use pbpp.Select.Mark.{explicit, unmarked}
use pbpp.Select.Selection.{is_kept}
use pbpp.Prune.Visit.{Scope, Pruner, kept_node, reservation, sort_numbers, show}
use pbpp.Prune.Visit.Items.{clean_enum, visit_enum, visit_message, visit_items}
use pbpp.Prune.Visit.Numbers.{IsAscending}
use pbpp.Prune.Visit.Enums.{HasValue, visit_enum-reserves}
use pbpp.Prune.Visit.Messages.{own_numbers, visit_message-reserves}

abbrev nowhere : Span
nowhere = record { start = 0; end = 0 }

abbrev empty_range : IdxRange
empty_range = record { start = 0; len = 0 }

abbrev word : Text → Word
word text = record { text = text; span = nowhere }

abbrev meta_at : ℕ → ℕ → ℕ → Meta
meta_at id start end = record {
  id = id;
  span = record { start = start; end = end };
  blank_before = false;
  leading = empty_range;
  trailing = empty_range;
  detached = empty_range;
}

-- Nodes 0 to 2 stay.
abbrev three_stay : Scope
three_stay = record {
  sel = record {
    marks = λ s. if ltb s 3 then explicit else unmarked;
    cascade_dropped = λ s. false;
    introduced_by = λ s. none;
    decided_by = λ s. none;
  };
  node_sym = none ∷ some 1 ∷ some 2 ∷ some 3 ∷ some 4 ∷ some 5 ∷ [];
  cs = [];
  segs = [];
}

abbrev value_of : ℕ → ℕ → ℕ → EnumItem
value_of id number at = EnumItem.value (record {
  meta = meta_at id at (suc at);
  name = word (codes "V");
  negative = false;
  number = word (codes "?");
  number_val = pos number;
  options = [];
})

-- Value 7 goes in one spelling and stays in the other; 9 goes twice.
abbrev aliases : Enum
aliases = record {
  meta = meta_at 0 10 30;
  name = word (codes "E");
  body = record {
    intro = empty_range;
    items =
        value_of 1 0 11
        ∷ value_of 3 9 13
        ∷ value_of 4 7 15
        ∷ value_of 2 7 17
        ∷ value_of 5 9 19
        ∷ [];
    dangling = empty_range;
  };
}

abbrev field_of : ℕ → ℕ → ℕ → MsgItem
field_of id number at = MsgItem.field (record {
  meta = meta_at id at (suc at);
  label = none;
  ty = TypeRef.scalar (word (codes "bool"));
  name = word (codes "f");
  number = word (codes "?");
  number_val = number;
  options = [];
})

abbrev fields : MsgItems
fields = cons (field_of 3 8 41) (cons (MsgItem.enum aliases) (cons (field_of 4 5 43) no_items))

abbrev fresh : Pruner
fresh = record { edits = []; reserved = pos 3 ∷ [] }

numbers_sorted : sort_numbers (own_numbers three_stay fields) ≡ pos 5 ∷ pos 8 ∷ []
unfolding sort_numbers kept_node is_kept cast_signed
numbers_sorted = refl

shown : show (pos 120) ≡ codes "120"
unfolding show
shown = refl

visit_enum-reserves_example :
    (ns : List ℤ) × ((visit_enum three_stay aliases fresh).edits
      ≡ (clean_enum three_stay aliases.body.items fresh).edits ++ reservation aliases.meta ns)
    × IsAscending ns
    × ((n : ℤ)
        → In n ns ↔ (
            HasValue three_stay false aliases.body.items n
            × ¬ HasValue three_stay true aliases.body.items n))
    × ((visit_enum three_stay aliases fresh).reserved ≡ fresh.reserved)
unfolding kept_node
visit_enum-reserves_example = visit_enum-reserves three_stay aliases fresh refl

visit_message-reserves_example :
    ((visit_message three_stay
        (message_of (meta_at 0 40 60) (word (codes "M")) empty_range fields empty_range)
        fresh).edits
      ≡ (visit_items three_stay fields fresh).edits
        ++ reservation (meta_at 0 40 60) (sort_numbers (own_numbers three_stay fields)))
    × ((visit_message three_stay
          (message_of (meta_at 0 40 60) (word (codes "M")) empty_range fields empty_range)
          fresh).reserved
        ≡ fresh.reserved)
unfolding kept_node
visit_message-reserves_example =
    visit_message-reserves three_stay (meta_at 0 40 60) (word (codes "M")) empty_range fields
      empty_range fresh refl
