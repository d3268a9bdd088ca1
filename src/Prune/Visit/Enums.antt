-- ===== src/Prune/Visit/Enums.antt =====
-- src/prune.rs: what the visit of an enum puts into the text.
use mathlib.Core.List.{append_assoc}
use pbpp.Prelude.{
  append_nil, take-append, drop-append, ◌≡◌, ◌∙◌, ap, refl, sym, inl, inr, ◌⊎◌, ◌↔◌, Bool, true,
  false, not, ◌&&◌, List, [], ◌∷◌, ◌++◌, arith, if◌then◌else◌, ltb, length, length-append,
  Bool-cases, In, In-append, none,
}
use pbpp.Prelude.Int.{ℤ, ℤ_eq_iff}
use pbpp.Cst.Options.{OptionStmt}
use pbpp.Cst.Decls.{Enum, EnumItem, EnumValue}
use pbpp.Prune.Edits.{Edit}
use pbpp.Prune.Visit.{Scope, Pruner, kept_node, delete_meta, push, sort_numbers, reservation}
use pbpp.Prune.Visit.Items.{
  value_kept, is_alive, visit_value, visit_values, delete_switch, delete_allow_alias, clean_enum,
  compact, compact_tail, deletes_any, kept_values_alias, is_allow_alias_true, visit_enum,
}
use pbpp.Prune.Visit.Numbers.{
  IsAscending, In-sort_numbers, sort_numbers-IsOrdered, sort_numbers-IsAscending, In-compact,
  compact-IsAscending,
}
use pbpp.Prune.Visit.Reserved.{insert_reserved_lem}

-- A visitor with its stack written out.
pub over : (p : Pruner) (r : List ℤ) → p.reserved ≡ r → p ≡ record { edits = p.edits; reserved = r }
over p r e = ap (λ (x : List ℤ). let q : Pruner = record { edits = p.edits; reserved = x } in q) e

module _ (scope : Scope) where
  abbrev dropped_value : EnumValue → List ℤ
  dropped_value v = if value_kept scope v then [] else v.number_val ∷ []

  abbrev dropped_values : List EnumItem → List ℤ
  dropped_values [] = []
  dropped_values (EnumItem.value v ∷ is) = dropped_value v ++ dropped_values is
  dropped_values (EnumItem.option o ∷ is) = dropped_values is
  dropped_values (EnumItem.reserved r ∷ is) = dropped_values is

  -- Some value among the items, kept or not as `kept` says, has the number.
  abbrev pub HasValue : Bool → List EnumItem → ℤ → Type 0
  HasValue kept [] n = ⊥
  HasValue kept (EnumItem.value v ∷ is) n =
      ((v.number_val ≡ n) × (value_kept scope v ≡ kept)) ⊎ HasValue kept is n
  HasValue kept (EnumItem.option o ∷ is) n = HasValue kept is n
  HasValue kept (EnumItem.reserved r ∷ is) n = HasValue kept is n

  is_alive_iff : (is : List EnumItem) (n : ℤ) → (is_alive scope is n ≡ true) ↔ HasValue true is n
  unfolding is_alive
  is_alive_iff [] n = ground arith
  is_alive_iff (EnumItem.option o ∷ is) n = is_alive_iff is n
  is_alive_iff (EnumItem.reserved r ∷ is) n = is_alive_iff is n
  is_alive_iff (EnumItem.value v ∷ is) n =
      ground (arith, ℤ_eq_iff v.number_val n, is_alive_iff is n)

  In-dropped_value :
      (v : EnumValue) (n : ℤ)
      → In n (dropped_value v) ↔ ((v.number_val ≡ n) × (value_kept scope v ≡ false))
  In-dropped_value v n = elim (Bool-cases (value_kept scope v)) [
    | inl kept ↦ rw kept (ground arith)
    | inr gone ↦ rw gone (ground arith)
  ]

  In-dropped_values : (is : List EnumItem) (n : ℤ) → In n (dropped_values is) ↔ HasValue false is n
  In-dropped_values [] n = ground arith
  In-dropped_values (EnumItem.option o ∷ is) n = In-dropped_values is n
  In-dropped_values (EnumItem.reserved r ∷ is) n = In-dropped_values is n
  In-dropped_values (EnumItem.value v ∷ is) n = ground (
    arith,
    In-append n (dropped_value v) (dropped_values is),
    In-dropped_value v n,
    In-dropped_values is n,
  )

  visit_value-reserved :
      (v : EnumValue) (p : Pruner)
      → (visit_value scope v p).reserved ≡ p.reserved ++ dropped_value v
  unfolding visit_value push delete_meta
  visit_value-reserved v p = elim (Bool-cases (value_kept scope v)) [
    | inl kept ↦ rw kept (sym (append_nil p.reserved))
    | inr gone ↦ rw gone
  ]

  visit_values-reserved :
      (is : List EnumItem) (p : Pruner)
      → (visit_values scope is p).reserved ≡ p.reserved ++ dropped_values is
  unfolding visit_values
  visit_values-reserved [] p = sym (append_nil p.reserved)
  visit_values-reserved (EnumItem.option o ∷ is) p = visit_values-reserved is p
  visit_values-reserved (EnumItem.reserved r ∷ is) p = visit_values-reserved is p
  visit_values-reserved (EnumItem.value v ∷ is) p =
      visit_values-reserved is (visit_value scope v p)
      ∙ rw (visit_value-reserved v p)
          (append_assoc p.reserved (dropped_value v) (dropped_values is))

  delete_switch-reserved :
      (o : OptionStmt) (p : Pruner) → (delete_switch scope o p).reserved ≡ p.reserved
  unfolding delete_switch delete_meta
  delete_switch-reserved o p = elim (Bool-cases (is_allow_alias_true o scope.segs)) [
    | inl yes_it_is ↦ rw yes_it_is
    | inr it_is_not ↦ rw it_is_not
  ]

  delete_allow_alias-reserved :
      (is : List EnumItem) (p : Pruner) → (delete_allow_alias scope is p).reserved ≡ p.reserved
  unfolding delete_allow_alias
  delete_allow_alias-reserved [] p = refl
  delete_allow_alias-reserved (EnumItem.value v ∷ is) p = delete_allow_alias-reserved is p
  delete_allow_alias-reserved (EnumItem.reserved r ∷ is) p = delete_allow_alias-reserved is p
  delete_allow_alias-reserved (EnumItem.option o ∷ is) p =
      delete_allow_alias-reserved is (delete_switch scope o p) ∙ delete_switch-reserved o p

  clean_enum-reserved :
      (is : List EnumItem) (p : Pruner)
      → (clean_enum scope is p).reserved ≡ p.reserved ++ dropped_values is
  unfolding clean_enum
  clean_enum-reserved is p =
      elim (Bool-cases (deletes_any scope is && not (kept_values_alias scope is))) [
        | inl clean ↦
            rw clean (
              delete_allow_alias-reserved is (visit_values scope is p) ∙ visit_values-reserved is p)
        | inr leave ↦ rw leave (visit_values-reserved is p)
      ]

  compact_tail_lem :
      (is : List EnumItem) (r t : List ℤ) (es : List Edit)
      → compact_tail scope is (length r) (record { edits = es; reserved = r ++ t })
        ≡ record { edits = es; reserved = r ++ compact scope is none (sort_numbers t) }
  unfolding compact_tail compact sort_numbers
  compact_tail_lem is r [] es = rw (length-append r []) (ground arith)
  compact_tail_lem is r (n ∷ t) es =
      let grown : ltb (length r) (length (r ++ n ∷ t)) ≡ true =
        rw (length-append r (n ∷ t)) (ground arith) in
      rw grown (rw (take-append r (n ∷ t)) (rw (drop-append r (n ∷ t))))

  abbrev enum_numbers : List EnumItem → List ℤ
  enum_numbers is = compact scope is none (sort_numbers (dropped_values is))

  enum_numbers-IsAscending : (is : List EnumItem) → IsAscending (enum_numbers is)
  enum_numbers-IsAscending is =
      compact-IsAscending scope is (sort_numbers (dropped_values is))
        (sort_numbers-IsOrdered (dropped_values is))

  In-enum_numbers :
      (is : List EnumItem) (n : ℤ)
      → In n (enum_numbers is) ↔ (HasValue false is n × ¬ HasValue true is n)
  In-enum_numbers is n = ground (
    arith,
    In-compact scope is n (sort_numbers (dropped_values is)),
    In-sort_numbers n (dropped_values is),
    In-dropped_values is n,
    is_alive_iff is n,
  )

  visit_enum-kept :
      (e : Enum) (p : Pruner)
      → kept_node scope e.meta.id ≡ true
      → visit_enum scope e p ≡ record {
        edits =
            (clean_enum scope e.body.items p).edits
            ++ reservation e.meta (enum_numbers e.body.items);
        reserved = p.reserved;
      }
  unfolding visit_enum
  visit_enum-kept e p k = rw k (
      rw (over (clean_enum scope e.body.items p) _ (clean_enum-reserved e.body.items p)) (
        rw
          (compact_tail_lem e.body.items p.reserved (dropped_values e.body.items)
            (clean_enum scope e.body.items p).edits)
          (insert_reserved_lem e.meta p.reserved (enum_numbers e.body.items)
              (clean_enum scope e.body.items p).edits
            ∙ rw (
                sort_numbers-IsAscending (enum_numbers e.body.items)
                  (enum_numbers-IsAscending e.body.items)))))

  -- A kept enum inserts, after its deletions, one list of reserved numbers, in strictly ascending
  -- order: exactly the numbers of its values that go and that no kept value shares. The stack of
  -- the enclosing scope is as before.
  pub visit_enum-reserves :
      (e : Enum) (p : Pruner)
      → kept_node scope e.meta.id ≡ true
      → (ns : List ℤ) × ((visit_enum scope e p).edits
          ≡ (clean_enum scope e.body.items p).edits ++ reservation e.meta ns)
        × IsAscending ns
        × ((n : ℤ) → In n ns ↔ (HasValue false e.body.items n × ¬ HasValue true e.body.items n))
        × ((visit_enum scope e p).reserved ≡ p.reserved)
  visit_enum-reserves e p k = (
    enum_numbers e.body.items,
    ap (λ (x : Pruner). x.edits) (visit_enum-kept e p k),
    enum_numbers-IsAscending e.body.items,
    In-enum_numbers e.body.items,
    ap (λ (x : Pruner). x.reserved) (visit_enum-kept e p k),
  )

  pub visit_enum-reserved : (e : Enum) (p : Pruner) → (visit_enum scope e p).reserved ≡ p.reserved
  unfolding visit_enum delete_meta
  visit_enum-reserved e p = elim (Bool-cases (kept_node scope e.meta.id)) [
    | inl kept ↦ ap (λ (x : Pruner). x.reserved) (visit_enum-kept e p kept)
    | inr gone ↦ rw gone
  ]
