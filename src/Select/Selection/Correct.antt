-- ===== src/Select/Selection/Correct.antt =====
-- src/select.rs: what `select` returns, stated of the rules, the symbol table and the result alone.
use pbpp.Prelude.{
  ℕ, ◌≤◌, ◌<◌, ◌≡◌, ◌↔◌, refl, ap, ◌>>=◌, inl, inr, true, false, some, List, [], ◌∷◌, arith,
  Bool-cases, ok, >>=-eq-ok, get_elem?, In,
}
use pbpp.Rules.{Rule, RuleSet, Polarity}
use pbpp.Sema.Symbols.{Sema, Ref, sym, sym_count, refs, children, IsWellFormed}
use pbpp.Sema.Kind.{carries_refs}
use pbpp.Select.Mark.{strength}
use pbpp.Select.Decide.{Decision, decide, evaluate, evaluate_rules, is_none}
use pbpp.Select.Decide.Inherit.{Encloses, IsLatest, decide-IsLatest}
use pbpp.Select.Decide.Direct.{takes_effect, evaluate-IsLastHit}
use pbpp.Select.Decide.Hits.{IsLive, evaluate_rules-IsLive}
use pbpp.Select.Closure.{State, close, excludes}
use pbpp.Select.Closure.Reached.{Offered, referenced, Reached}
use pbpp.Select.Closure.References.{HasCascade}
use pbpp.Select.Closure.Exact.{close-Reached, close-container, close-cascade, clean_or_cascade}
use pbpp.Select.Closure.Rounds.{close-IsClosed}
use pbpp.Select.Closure.Keep.{def-carries_refs}
use pbpp.Select.Selection.{
  Selected, is_kept, check_enum_legality, select, select_by, select_rules, decisions, result,
}
use pbpp.Select.Selection.Enums.{StartsWithZero, IsKeptEnum, check_enum_legality_lem}

module _ (sema : Sema) where
  -- The parts of a successful selection.
  pub record IsSelection (rules : RuleSet) (sel : Selected) : Type 0 where
    pub live : (j : ℕ) (rule : Rule) → get_elem? rules.rules j ≡ some rule → IsLive sema rule
    pub state : State
    pub closed : close sema (decisions sema rules) ≡ ok state
    pub enums : check_enum_legality sema state.marks ≡ ok tt
    pub same : sel ≡ result (decisions sema rules) state

  pub select-IsSelection :
      (rules : RuleSet) (sel : Selected) → select sema rules ≡ ok sel → IsSelection rules sel
  unfolding select
  select-IsSelection rules sel h = go rules.rules refl h
    where
      go :
          (rs : List Rule)
          → rules.rules ≡ rs
          → select_rules sema rs ≡ ok sel
          → IsSelection rules sel
      go [] e g = cc
      go (r ∷ rs) e g =
          let (direct, evaluated, rest) =
            >>=-eq-ok (evaluate_rules sema (r ∷ rs)) (λ d. select_by sema (decide sema d)) g in
          let (direct_is, live) = evaluate_rules-IsLive sema (r ∷ rs) direct evaluated in
          let (st, closed, rest') =
            >>=-eq-ok (close sema (decide sema direct))
              (λ s. check_enum_legality sema s.marks >>= λ _. ok (result (decide sema direct) s))
              rest in
          let (u, enums, done) =
            >>=-eq-ok (check_enum_legality sema st.marks) (λ _. ok (result (decide sema direct) st))
              rest' in
          let by : decide sema direct ≡ decisions sema rules = rw (direct_is, e) in
          record {
            live = λ j rule got. live j rule (rw e at got);
            state = st;
            closed = rw by at closed;
            enums = enums;
            same = rw (← by) cc;
          }

module _ (sema : Sema) (wf : IsWellFormed sema) (rules : RuleSet) where
  -- The decision of a symbol is the rule with the highest index among all that take effect at the
  -- symbol or at a definition around it, and there is none where none takes effect.
  pub record IsDecided (s : ℕ) (d : Decision) : Type 0 where
    pub chosen :
        (r : ℕ) (p : Polarity)
        → d ≡ some (r, p)
        → (a : ℕ) × (rule : Rule) × Encloses sema a s
          × (get_elem? rules.rules r ≡ some rule)
          × (takes_effect sema a rule ≡ true)
          × (rule.polarity ≡ p)
    pub last :
        (a r : ℕ) (rule : Rule)
        → Encloses sema a s
        → get_elem? rules.rules r ≡ some rule
        → takes_effect sema a rule ≡ true
        → (q : ℕ) × (p : Polarity) × (d ≡ some (q, p)) × (r ≤ q)

  Encloses-le : {a s : ℕ} → Encloses sema a s → a ≤ s
  Encloses-le Encloses.itself = omega arith
  Encloses-le (Encloses.outward {s} {p} e enc) = omega (arith, wf.parent_lt s p e, Encloses-le enc)

  -- Every symbol of a well-formed table gets the last rule that takes effect at it or at a
  -- definition around it: later rules override earlier ones regardless of depth, and a rule holds
  -- for the whole subtree.
  pub decisions-IsDecided : (s : ℕ) → s < sym_count sema → IsDecided s (decisions sema rules s)
  decisions-IsDecided s h = record {
    chosen = λ r p e.
        let (a, enc, at) = by_tree.given r p e in
        let hit = evaluate-IsLastHit sema rules.rules a (omega (arith, Encloses-le enc)) in
        let (rule, got, t, pol) = hit.chosen r p at in (a, rule, enc, got, t, pol);
    last = λ a r rule enc got t.
        let hit = evaluate-IsLastHit sema rules.rules a (omega (arith, Encloses-le enc)) in
        let (q, p, at, le) = hit.last r rule got t in
        let (q', p', found, le') = by_tree.latest a q p enc at in (q', p', found, omega arith);
  }
    where
      by_tree : IsLatest sema (evaluate sema rules.rules).direct (decisions sema rules s) s
      by_tree = decide-IsLatest sema (evaluate sema rules.rules).direct wf.parent_lt s h

  facts :
      (sel : Selected)
      → select sema rules ≡ ok sel
      → (st : State) × (close sema (decisions sema rules) ≡ ok st)
        × (sel.marks ≡ st.marks)
        × (sel.cascade_dropped ≡ st.cascade)
  facts sel h =
      let s = select-IsSelection sema rules sel h in
      (
        s.state,
        s.closed,
        ap (λ (x : Selected). x.marks) s.same,
        ap (λ (x : Selected). x.cascade_dropped) s.same,
      )

  -- After a successful selection on a well-formed table a symbol is marked required or explicit
  -- exactly if it is reached: a rule keeps it, it is content of a reached definition, or a reached
  -- field or method refers to it; and none of its own references goes to an excluded symbol.
  pub select-Reached :
      (sel : Selected) (i : ℕ)
      → select sema rules ≡ ok sel
      → (2 ≤ strength (sel.marks i)) ↔ Reached sema (decisions sema rules) i
  select-Reached sel i h =
      let (st, closed, marks, _) = facts sel h in
      rw marks (close-Reached sema (decisions sema rules) wf st i closed)

  -- After a successful selection on a well-formed table the symbols marked as dropped by cascade
  -- are exactly the fields and methods that are wanted and refer to a symbol that a `-!` rule
  -- excludes.
  pub select-cascade :
      (sel : Selected) (i : ℕ)
      → select sema rules ≡ ok sel
      → (sel.cascade_dropped i ≡ true)
        ↔ (Offered sema (decisions sema rules) i × HasCascade sema (decisions sema rules) i)
  select-cascade sel i h =
      let (st, closed, _, cascade) = facts sel h in
      rw cascade (close-cascade sema (decisions sema rules) wf st i closed)

  marked_and_dropped :
      (sel : Selected) (i : ℕ)
      → select sema rules ≡ ok sel
      → 1 ≤ strength (sel.marks i)
      → sel.cascade_dropped i ≡ false
  marked_and_dropped sel i h m = elim (Bool-cases (sel.cascade_dropped i)) [
    | inr kept ↦ kept
    | inl gone ↦
        let (st, closed, marks, cascade) = facts sel h in
        let v = (close-IsClosed sema (decisions sema rules) wf st closed).inv in
        absurd (
          clean_or_cascade sema (decisions sema rules) i (v.clean i (rw marks at m))
            (v.cascaded i (rw cascade at gone)).1)
  ]

  is_kept-marked :
      (sel : Selected) (i : ℕ)
      → select sema rules ≡ ok sel
      → (is_kept sel i ≡ true) ↔ (1 ≤ strength (sel.marks i))
  unfolding is_kept
  is_kept-marked sel i h = (λ k. ground arith, λ m. ground (arith, marked_and_dropped sel i h m))

  -- After a successful selection on a well-formed table a symbol survives exactly if it is reached
  -- or encloses a symbol that is reached.
  pub select-is_kept :
      (sel : Selected) (i : ℕ)
      → select sema rules ≡ ok sel
      → (is_kept sel i ≡ true)
        ↔ ((j : ℕ) × Encloses sema i j × Reached sema (decisions sema rules) j)
  select-is_kept sel i h =
      let (st, closed, marks, _) = facts sel h in
      let c = close-container sema (decisions sema rules) wf st i closed in
      let k = is_kept-marked sel i h in
      (λ kept. c.0 (rw marks at (k.0 kept)), λ r. k.1 (rw marks (c.1 r)))

  Encloses-self : {a s : ℕ} → Encloses sema a s → carries_refs (sym sema a).kind ≡ true → a ≡ s
  Encloses-self Encloses.itself carries = refl
  Encloses-self {a} (Encloses.outward {s} {p} e enc) carries =
      let same : a ≡ p = Encloses-self enc carries in
      absurd (def-carries_refs (sym sema a).kind (rw same (wf.parent_is_def s p e)) carries)

  -- After a successful selection on a well-formed table, a field or method of the input that
  -- survives refers only to symbols that survive too, and that
  -- no rule excludes.
  pub select-refs :
      (sel : Selected) (i : ℕ) (r : Ref)
      → select sema rules ≡ ok sel
      → is_kept sel i ≡ true
      → carries_refs (sym sema i).kind ≡ true
      → is_none (sym sema i).file ≡ false
      → In r (refs sema i)
      → (is_kept sel r.target ≡ true) × (excludes (decisions sema rules r.target) ≡ false)
  select-refs sel i r h kept carries file m =
      let (j, enc, at_j) = (select-is_kept sel i h).0 kept in
      let same : i ≡ j = Encloses-self enc carries in
      let (offered, clean) = let x : Reached sema (decisions sema rules) i = rw same at_j in x in
      (
        (select-is_kept sel r.target h).1 (
          r.target,
          Encloses.itself,
          (
            referenced r offered clean file carries m refl,
            λ c q n. absurd (def-carries_refs (sym sema r.target).kind (wf.target_is_def i r m) c),
          ),
        ),
        clean carries r m,
      )

  -- After a successful selection on a well-formed table every kept enum of the input has a kept
  -- value, and the first kept one in source order has the number zero.
  pub select-StartsWithZero :
      (sel : Selected) (e : ℕ)
      → select sema rules ≡ ok sel
      → e < sym_count sema
      → IsKeptEnum sema sel.marks e
      → StartsWithZero sema sel.marks (children sema e)
  select-StartsWithZero sel e h b k =
      let s = select-IsSelection sema rules sel h in
      let marks : sel.marks ≡ s.state.marks = ap (λ (x : Selected). x.marks) s.same in
      check_enum_legality_lem sema sel.marks (rw marks s.enums) e b k
