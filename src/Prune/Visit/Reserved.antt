-- ===== src/Prune/Visit/Reserved.antt =====
-- src/prune.rs: the stack of deleted numbers during a visit, and what is inserted from it.
use mathlib.Core.List.{append_assoc}
use pbpp.Prelude.{
  suc, ◌≤◌, ◌≡◌, ◌∙◌, sym, inl, inr, true, false, ◌&&◌, List, [], ◌∷◌, ◌++◌, arith, if◌then◌else◌,
  ltb, ◌==◌, length, append_nil, take-append, drop-append, length-append, Bool-cases,
}
use pbpp.Prelude.Int.{cast_signed, ℤ}
use pbpp.Cst.Nodes.{Meta}
use pbpp.Cst.Decls.{Field, Oneof, OneofItem}
use pbpp.Prune.Edits.{Edit}
use pbpp.Prune.Visit.{
  Scope, Pruner, kept_node, delete_meta, push, sort_numbers, reservation, insert_reserved,
  count_fields, count_dropped, push_fields, visit_field, visit_fields, visit_oneof,
}

-- On a stack that grew by `t` from the base, the insertion takes all of `t` off.
pub insert_reserved_lem :
    (m : Meta) (r t : List ℤ) (es : List Edit)
    → insert_reserved m (length r) (record { edits = es; reserved = r ++ t })
      ≡ record { edits = es ++ reservation m (sort_numbers t); reserved = r }
unfolding insert_reserved sort_numbers reservation
insert_reserved_lem m r [] es =
    let same : (length (r ++ []) == length r) ≡ true = rw (append_nil r) (ground arith) in
    rw same (rw (append_nil r) (rw (append_nil es)))
insert_reserved_lem m r (n ∷ t) es =
    let grown : (length (r ++ n ∷ t) == length r) ≡ false =
      rw (length-append r (n ∷ t)) (ground arith) in
    rw grown (rw (take-append r (n ∷ t)) (rw (drop-append r (n ∷ t))))

module _ (scope : Scope) where
  abbrev pub dropped_field : Field → List ℤ
  dropped_field f = if kept_node scope f.meta.id then [] else cast_signed f.number_val ∷ []

  -- The numbers of the fields of a oneof that go.
  abbrev pub dropped_fields : List OneofItem → List ℤ
  dropped_fields [] = []
  dropped_fields (OneofItem.field f ∷ is) = dropped_field f ++ dropped_fields is
  dropped_fields (OneofItem.option o ∷ is) = dropped_fields is

  pub visit_field-reserved :
      (f : Field) (p : Pruner) → (visit_field scope f p).reserved ≡ p.reserved ++ dropped_field f
  unfolding visit_field push delete_meta
  visit_field-reserved f p = elim (Bool-cases (kept_node scope f.meta.id)) [
    | inl kept ↦ rw kept (sym (append_nil p.reserved))
    | inr gone ↦ rw gone
  ]

  visit_fields-reserved :
      (is : List OneofItem) (p : Pruner)
      → (visit_fields scope is p).reserved ≡ p.reserved ++ dropped_fields is
  unfolding visit_fields
  visit_fields-reserved [] p = sym (append_nil p.reserved)
  visit_fields-reserved (OneofItem.option o ∷ is) p = visit_fields-reserved is p
  visit_fields-reserved (OneofItem.field f ∷ is) p =
      visit_fields-reserved is (visit_field scope f p)
      ∙ rw (visit_field-reserved f p)
          (append_assoc p.reserved (dropped_field f) (dropped_fields is))

  count_dropped-le : (is : List OneofItem) → count_dropped scope is ≤ count_fields scope is
  unfolding count_dropped count_fields
  count_dropped-le [] = omega arith
  count_dropped-le (OneofItem.option o ∷ is) = count_dropped-le is
  count_dropped-le (OneofItem.field f ∷ is) = ground (arith, count_dropped-le is)

  push_fields-reserved :
      (is : List OneofItem) (p : Pruner)
      → count_dropped scope is ≡ count_fields scope is
      → (push_fields scope is p).reserved ≡ p.reserved ++ dropped_fields is
  unfolding push_fields push count_dropped count_fields
  push_fields-reserved [] p h = sym (append_nil p.reserved)
  push_fields-reserved (OneofItem.option o ∷ is) p h = push_fields-reserved is p h
  push_fields-reserved (OneofItem.field f ∷ is) p h =
      elim (Bool-cases (kept_node scope f.meta.id)) [
        | inl kept ↦
            let few : count_dropped scope is ≡ suc (count_fields scope is) = rw kept at h in
            absurd (omega (arith, few, count_dropped-le is))
        | inr gone ↦
            let rest : count_dropped scope is ≡ count_fields scope is =
              let s = rw gone at h in omega arith in
            rw gone (push_fields-reserved is _ rest ∙ append_assoc p.reserved _ _)
      ]

  -- Either way, a oneof puts on the stack the numbers of exactly its fields that go.
  pub visit_oneof-reserved :
      (o : Oneof) (p : Pruner)
      → (visit_oneof scope o p).reserved ≡ p.reserved ++ dropped_fields o.body.items
  unfolding visit_oneof delete_meta
  visit_oneof-reserved o p =
      elim (Bool-cases (
        ltb 0 (count_fields scope o.body.items)
        && count_dropped scope o.body.items == count_fields scope o.body.items)) [
          | inl all_gone ↦ rw all_gone (push_fields-reserved o.body.items _ (ground arith))
          | inr some_stay ↦ rw some_stay (visit_fields-reserved o.body.items p)
        ]
