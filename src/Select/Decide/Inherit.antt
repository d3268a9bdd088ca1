-- ===== src/Select/Decide/Inherit.antt =====
-- src/select.rs: the forward pass gives each symbol the latest rule on its path to the root.
use pbpp.Prelude.{
  ℕ, zero, suc, ◌+◌, ◌≤◌, ◌<◌, ◌≡◌, ◌⊎◌, inl, inr, none, some, arith, update, ltb, ◌==◌,
  Option-cases, Bool-cases,
}
use pbpp.Rules.{Polarity}
use pbpp.Sema.Symbols.{Sema, sym, sym_count}
use pbpp.Select.Decide.{Decision, combine, inherited, decide_from, decide}

-- `a` is `s` or a definition around it.
pub data Encloses (sema : Sema) (a : ℕ) : ℕ → Type 0 where
  itself : Encloses sema a a
  outward : {s p : ℕ} → (sym sema s).parent ≡ some p → Encloses sema a p → Encloses sema a s

module _ (sema : Sema) (direct : ℕ → Decision) where
  -- `d` is the rule with the highest index among those of `s` and of the definitions around it.
  pub record IsLatest (d : Decision) (s : ℕ) : Type 0 where
    pub given :
        (r : ℕ) (p : Polarity)
        → d ≡ some (r, p)
        → (a : ℕ) × Encloses sema a s × (direct a ≡ some (r, p))
    pub latest :
        (a r : ℕ) (p : Polarity)
        → Encloses sema a s
        → direct a ≡ some (r, p)
        → (q : ℕ) × (o : Polarity) × (d ≡ some (q, o)) × (r ≤ q)

  combine_own :
      (own outer : Decision) (r : ℕ) (p : Polarity)
      → own ≡ some (r, p)
      → (q : ℕ) × (o : Polarity) × (combine own outer ≡ some (q, o)) × (r ≤ q)
  unfolding combine
  combine_own (some (r', p')) none r p e = (r, p, e, omega arith)
  combine_own (some (r', p')) (some (s, t)) r p e = elim (Bool-cases (ltb r' s)) [
    | inl h ↦ (s, t, rw h, ground arith)
    | inr h ↦ (r, p, rw h e, omega arith)
  ]
  combine_own none outer r p e = cc

  combine_outer :
      (own outer : Decision) (r : ℕ) (p : Polarity)
      → outer ≡ some (r, p)
      → (q : ℕ) × (o : Polarity) × (combine own outer ≡ some (q, o)) × (r ≤ q)
  unfolding combine
  combine_outer (some (r', p')) (some (s, t)) r p e = elim (Bool-cases (ltb r' s)) [
    | inl h ↦ (r, p, rw h e, omega arith)
    | inr h ↦ (r', p', rw h, ground arith)
  ]
  combine_outer none (some (s, t)) r p e = (r, p, e, omega arith)
  combine_outer own none r p e = cc

  combine_either :
      (own outer : Decision) (r : ℕ) (p : Polarity)
      → combine own outer ≡ some (r, p)
      → (own ≡ some (r, p)) ⊎ (outer ≡ some (r, p))
  unfolding combine
  combine_either (some (r', p')) none r p e = inl e
  combine_either (some (r', p')) (some (s, t)) r p e = ground arith
  combine_either none (some (s, t)) r p e = inr e
  combine_either none none r p e = cc

  IsLatest-root : (i : ℕ) → (sym sema i).parent ≡ none → IsLatest (combine (direct i) none) i
  unfolding combine
  IsLatest-root i root = record {
    given = λ r p e.
        (i, itself, elim (combine_either (direct i) none r p e) [ inl h ↦ h | inr h ↦ cc ]);
    latest = λ a r p enc e. at_root i a enc root e;
  }
    where
      at_root :
          (s a : ℕ) {r : ℕ} {p : Polarity}
          → Encloses sema a s
          → (sym sema s).parent ≡ none
          → direct a ≡ some (r, p)
          → (q : ℕ) × (o : Polarity) × (combine (direct s) none ≡ some (q, o)) × (r ≤ q)
      at_root s a {r} {p} itself top e = combine_own (direct s) none r p e
      at_root s a (outward up enc) top e = cc

  IsLatest-child :
      (i p : ℕ) (d : Decision)
      → (sym sema i).parent ≡ some p
      → IsLatest d p
      → IsLatest (combine (direct i) d) i
  IsLatest-child i p d up l = record {
    given = λ r o e. elim (combine_either (direct i) d r o e) [
      | inl own ↦ (i, itself, own)
      | inr outer ↦ let (a, enc, h) = l.given r o outer in (a, outward up enc, h)
    ];
    latest = λ a r o enc e. inside i a r o enc up e;
  }
    where
      inside :
          (s a r : ℕ) (o : Polarity)
          → Encloses sema a s
          → (sym sema s).parent ≡ some p
          → direct a ≡ some (r, o)
          → (q : ℕ) × (t : Polarity) × (combine (direct s) d ≡ some (q, t)) × (r ≤ q)
      inside s a r o itself above e = combine_own (direct s) d r o e
      inside s a r o (outward {p = p'} above' enc) above e =
          let same : p' ≡ p = cc in
          let (q, t, found, le) = l.latest a r o (rw same at enc) e in
          let (q', t', found', le') = combine_outer (direct s) d q t found in
          (q', t', found', omega arith)

  module _ (ordered : (i p : ℕ) → (sym sema i).parent ≡ some p → p < i) where
    IsLatest-step :
        (i : ℕ) (decision : ℕ → Decision)
        → ((j : ℕ) → j < i → IsLatest (decision j) j)
        → IsLatest (combine (direct i) (inherited decision (sym sema i).parent)) i
    unfolding inherited
    IsLatest-step i decision before = elim (Option-cases (sym sema i).parent) [
      | inl root ↦ rw (root, inherited) (IsLatest-root i root)
      | inr (p, up) ↦
          rw (up, inherited) (IsLatest-child i p (decision p) up (before p (ordered i p up)))
    ]

    decide_from-IsLatest :
        (n i k : ℕ) (decision : ℕ → Decision)
        → i + n ≡ k
        → ((j : ℕ) → j < i → IsLatest (decision j) j)
        → (j : ℕ) → j < k
        → IsLatest (decide_from sema direct n i decision j) j
    unfolding decide_from
    decide_from-IsLatest zero i k decision e before j h = before j (omega arith)
    decide_from-IsLatest (suc n) i k decision e before j h =
        decide_from-IsLatest n (suc i) k (update decision i next) (omega arith) extended j h
      where
        next : Decision
        next = combine (direct i) (inherited decision (sym sema i).parent)

        extended : (m : ℕ) → m < suc i → IsLatest (update decision i next m) m
        extended m below = elim (Bool-cases (i == m)) [
          | inl same ↦
              let eq : i ≡ m = ground arith in rw same (rw (← eq) (IsLatest-step i decision before))
          | inr other ↦ rw other (before m (ground arith))
        ]

    -- Where parents come before their children, the one forward pass gives every symbol exactly
    -- the rule with the highest index among those that hit it or a definition around it, and none
    -- where none hits.
    pub decide-IsLatest : (s : ℕ) → s < sym_count sema → IsLatest (decide sema direct s) s
    unfolding decide
    decide-IsLatest s h =
        decide_from-IsLatest (sym_count sema) 0 (sym_count sema) (λ _. none) (omega arith)
          (λ j below. absurd (omega arith)) s h
