-- ===== src/Select/Decide/Direct.antt =====
-- src/select.rs: the table `direct` holds the last rule that takes effect at each symbol.
use pbpp.Prelude.{
  ℕ, zero, suc, ◌+◌, ◌≤◌, ◌<◌, ◌≡◌, ◌∙◌, ◌⊎◌, ◌≢◌, refl, inl, inr, Bool, true, false, not, ◌&&◌,
  none, some, List, [], ◌∷◌, arith, ltb, ◌==◌, if◌then◌else◌, Bool-cases, get_elem?,
}
use pbpp.Rules.{Polarity, Rule}
use pbpp.Sema.Symbols.{Sema, sym, sym_count, segs}
use pbpp.Select.Decide.{
  Decision, Evaluation, rule_matches, is_keep, is_none, apply_rule, apply_rules, evaluate_from,
  evaluate, no_evaluation,
}

-- The rule matches the symbol, and it is not a keep rule on a builtin.
abbrev pub takes_effect : Sema → ℕ → Rule → Bool
takes_effect sema s rule =
    rule_matches rule (sym sema s).kind (segs sema s)
    && not (is_none (sym sema s).file && is_keep rule.polarity)

-- `d` is the last rule of the list that takes effect at `s`, or none does.
pub record IsLastHit (sema : Sema) (rules : List Rule) (s : ℕ) (d : Decision) : Type 0 where
  pub chosen :
      (r : ℕ) (p : Polarity)
      → d ≡ some (r, p)
      → (rule : Rule) × (get_elem? rules r ≡ some rule)
        × (takes_effect sema s rule ≡ true)
        × (rule.polarity ≡ p)
  pub last :
      (r : ℕ) (rule : Rule)
      → get_elem? rules r ≡ some rule
      → takes_effect sema s rule ≡ true
      → (q : ℕ) × (p : Polarity) × (d ≡ some (q, p)) × (r ≤ q)

some_parts :
    (a b : ℕ) (p q : Polarity) → ◌≡◌ {A = Decision} (some (a, p)) (some (b, q)) → (a ≡ b) × (p ≡ q)
some_parts a b p q h = (cc, cc)

module _ (sema : Sema) where
  apply_rule-direct :
      (sid ri : ℕ) (rule : Rule) (e : Evaluation) (s : ℕ)
      → (apply_rule sema sid ri rule e).direct s ≡ (
          if (sid == s) && takes_effect sema sid rule then some (ri, rule.polarity) else e.direct s)
  unfolding apply_rule
  apply_rule-direct sid ri rule e s = ground arith

  apply_rules-other :
      (sid ri : ℕ) (rules : List Rule) (e : Evaluation) (s : ℕ)
      → s ≢ sid
      → (apply_rules sema sid ri rules e).direct s ≡ e.direct s
  unfolding apply_rules
  apply_rules-other sid ri [] e s ne = refl
  apply_rules-other sid ri (rule ∷ rules) e s ne = ground (
    arith,
    apply_rules-other sid (suc ri) rules (apply_rule sema sid ri rule e) s,
    apply_rule-direct sid ri rule e s,
  )

  module _ (sid : ℕ) where
    effective_head :
        (ri : ℕ) (rule : Rule) (e : Evaluation)
        → takes_effect sema sid rule ≡ true
        → (apply_rule sema sid ri rule e).direct sid ≡ some (ri, rule.polarity)
    effective_head ri rule e t = ground (arith, apply_rule-direct sid ri rule e sid)

    idle_head :
        (ri : ℕ) (rule : Rule) (e : Evaluation)
        → takes_effect sema sid rule ≡ false
        → (apply_rule sema sid ri rule e).direct sid ≡ e.direct sid
    idle_head ri rule e t = ground (arith, apply_rule-direct sid ri rule e sid)

    -- A decision can only be overwritten by a later one.
    persists :
        (ri : ℕ) (rules : List Rule) (e : Evaluation) (r : ℕ) (p : Polarity)
        → e.direct sid ≡ some (r, p)
        → r ≤ ri
        → (q : ℕ) × (o : Polarity) × ((apply_rules sema sid ri rules e).direct sid ≡ some (q, o))
          × (r ≤ q)
    unfolding apply_rules
    persists ri [] e r p h le = (r, p, h, omega arith)
    persists ri (rule ∷ rules) e r p h le = elim (Bool-cases (takes_effect sema sid rule)) [
      | inl t ↦
          let (q, o, found, more) =
            persists (suc ri) rules (apply_rule sema sid ri rule e) ri rule.polarity
              (effective_head ri rule e t) (omega arith) in
          (q, o, found, omega arith)
      | inr f ↦
          persists (suc ri) rules (apply_rule sema sid ri rule e) r p (rw (idle_head ri rule e f) h)
            (omega arith)
    ]

    apply_rules-last :
        (ri : ℕ) (rules : List Rule) (e : Evaluation) (k : ℕ) (rule : Rule)
        → get_elem? rules k ≡ some rule
        → takes_effect sema sid rule ≡ true
        → (q : ℕ) × (o : Polarity) × ((apply_rules sema sid ri rules e).direct sid ≡ some (q, o))
          × (ri + k ≤ q)
    unfolding apply_rules
    apply_rules-last ri [] e k rule g t = cc
    apply_rules-last ri (x ∷ rules) e zero rule g t =
        let same : x ≡ rule = cc in
        let (q, o, found, more) =
          persists (suc ri) rules (apply_rule sema sid ri x e) ri x.polarity
            (effective_head ri x e (rw same t)) (omega arith) in
        (q, o, found, omega arith)
    apply_rules-last ri (x ∷ rules) e (suc k) rule g t =
        let (q, o, found, more) =
          apply_rules-last (suc ri) rules (apply_rule sema sid ri x e) k rule g t in
        (q, o, found, omega arith)

    apply_rules-chosen :
        (ri : ℕ) (rules : List Rule) (e : Evaluation) (r : ℕ) (p : Polarity)
        → (apply_rules sema sid ri rules e).direct sid ≡ some (r, p)
        → (e.direct sid ≡ some (r, p))
          ⊎ ((k : ℕ) × (rule : Rule) × (r ≡ ri + k)
              × (get_elem? rules k ≡ some rule)
              × (takes_effect sema sid rule ≡ true)
              × (rule.polarity ≡ p))
    unfolding apply_rules
    apply_rules-chosen ri [] e r p h = inl h
    apply_rules-chosen ri (x ∷ rules) e r p h =
        elim (apply_rules-chosen (suc ri) rules (apply_rule sema sid ri x e) r p h) [
          | inr (k, rule, at, g, t, pol) ↦ inr (suc k, rule, omega arith, g, t, pol)
          | inl before ↦ elim (Bool-cases (takes_effect sema sid x)) [
            | inl t ↦
                let (at, pol) =
                  some_parts ri r x.polarity p (rw (effective_head ri x e t) at before) in
                inr (0, x, omega arith, refl, t, pol)
            | inr f ↦ inl (rw (idle_head ri x e f) at before)
          ]
        ]

    apply_rules-IsLastHit :
        (rules : List Rule) (e : Evaluation)
        → e.direct sid ≡ none
        → IsLastHit sema rules sid ((apply_rules sema sid 0 rules e).direct sid)
    apply_rules-IsLastHit rules e empty = record {
      chosen = λ r p h. elim (apply_rules-chosen 0 rules e r p h) [
        | inl before ↦ cc
        | inr (k, rule, at, g, t, pol) ↦ let same : r ≡ k = omega arith in (rule, rw same g, t, pol)
      ];
      last = λ r rule g t.
          let (q, p, found, more) = apply_rules-last 0 rules e r rule g t in
          (q, p, found, omega arith);
    }

  evaluate_from-IsLastHit :
      (rules : List Rule) (n sid m : ℕ) (e : Evaluation)
      → sid + n ≡ m
      → ((s : ℕ) → sid ≤ s → e.direct s ≡ none)
      → ((s : ℕ) → s < sid → IsLastHit sema rules s (e.direct s))
      → (s : ℕ) → s < m
      → IsLastHit sema rules s ((evaluate_from sema rules n sid e).direct s)
  unfolding evaluate_from
  evaluate_from-IsLastHit rules zero sid m e at above below s h = below s (omega arith)
  evaluate_from-IsLastHit rules (suc n) sid m e at above below s h =
      evaluate_from-IsLastHit rules n (suc sid) m e' (omega arith)
        (λ t le. apply_rules-other sid 0 rules e t (λ eq. omega arith) ∙ above t (omega arith))
        (λ t lt. done t lt) s h
    where
      e' : Evaluation
      e' = apply_rules sema sid 0 rules e

      done : (t : ℕ) → t < suc sid → IsLastHit sema rules t (e'.direct t)
      done t lt = elim (Bool-cases (ltb t sid)) [
        | inl under ↦
            rw (apply_rules-other sid 0 rules e t (λ eq. ground arith)) (below t (ground arith))
        | inr at_top ↦
            let eq : sid ≡ t = ground arith in
            rw (← eq) (apply_rules-IsLastHit sid rules e (above sid (omega arith)))
      ]

  -- At every symbol, `direct` holds the last rule that matches it, keep rules on builtins aside.
  pub evaluate-IsLastHit :
      (rules : List Rule) (s : ℕ)
      → s < sym_count sema
      → IsLastHit sema rules s ((evaluate sema rules).direct s)
  unfolding evaluate
  evaluate-IsLastHit rules s h =
      evaluate_from-IsLastHit rules (sym_count sema) 0 (sym_count sema) no_evaluation (omega arith)
        (λ t le. refl) (λ t lt. absurd (omega arith)) s h
