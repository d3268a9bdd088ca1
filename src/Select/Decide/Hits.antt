-- ===== src/Select/Decide/Hits.antt =====
-- src/select.rs: a rule is reported as dead exactly if it takes effect nowhere.
use pbpp.Prelude.{
  ℕ, zero, suc, ◌+◌, ◌≤◌, ◌<◌, ◌≡◌, ◌⊎◌, ◌↔◌, refl, subst, inl, inr, Bool, true, ◌&&◌, some, List,
  [], ◌∷◌, arith, ltb, ◌==◌, if◌then◌else◌, Bool-cases, List-cases, get_elem?, length, In, ok, err,
}
use pbpp.Rules.{Rule}
use pbpp.Sema.Symbols.{Sema, sym_count}
use pbpp.Select.Mark.{SelectError, dead_rule}
use pbpp.Select.Decide.{
  Decision, Evaluation, apply_rule, apply_rules, evaluate_from, evaluate, no_evaluation, dead_from,
  evaluate_rules, report_dead, prefix_of_some_symbol, pattern_of,
}
use pbpp.Select.Decide.Direct.{takes_effect}

module _ (sema : Sema) where
  apply_rule-hits :
      (sid ri : ℕ) (rule : Rule) (e : Evaluation) (j : ℕ)
      → (apply_rule sema sid ri rule e).hits j
        ≡ (if (ri == j) && takes_effect sema sid rule then e.hits j + 1 else e.hits j)
  unfolding apply_rule
  apply_rule-hits sid ri rule e j = ground arith

  -- Rule `j` of the list that starts at index `ri` takes effect at the symbol.
  abbrev Fires : ℕ → ℕ → List Rule → ℕ → Type 0
  Fires sid ri rules j =
      (k : ℕ) × (rule : Rule) × (j ≡ ri + k)
      × (get_elem? rules k ≡ some rule)
      × (takes_effect sema sid rule ≡ true)

  Fires-tail :
      (sid ri : ℕ) (x : Rule) (rules : List Rule) (j : ℕ)
      → Fires sid (suc ri) rules j
      → Fires sid ri (x ∷ rules) j
  Fires-tail sid ri x rules j (k, rule, at, g, t) = (suc k, rule, omega arith, g, t)

  apply_rules_step :
      (sid ri : ℕ) (x : Rule) (rules : List Rule) (e : Evaluation) (j after : ℕ)
      → (0 < after) ↔ ((0 < (apply_rule sema sid ri x e).hits j) ⊎ Fires sid (suc ri) rules j)
      → (0 < after) ↔ ((0 < e.hits j) ⊎ Fires sid ri (x ∷ rules) j)
  apply_rules_step sid ri x rules e j after rest = (forth, back)
    where
      head : (0 < (apply_rule sema sid ri x e).hits j) → (0 < e.hits j) ⊎ Fires sid ri (x ∷ rules) j
      head h = elim (Bool-cases ((ri == j) && takes_effect sema sid x)) [
        | inl now ↦ inr (0, x, ground arith, refl, ground arith)
        | inr idle ↦ inl (rw (apply_rule-hits sid ri x e j, idle) at h)
      ]

      forth : 0 < after → (0 < e.hits j) ⊎ Fires sid ri (x ∷ rules) j
      forth h = elim (rest.0 h) [
        | inl first ↦ head first
        | inr later ↦ inr (Fires-tail sid ri x rules j later)
      ]

      first_fires :
          (rule : Rule)
          → j ≡ ri + 0
          → x ≡ rule
          → takes_effect sema sid rule ≡ true
          → 0 < (apply_rule sema sid ri x e).hits j
      first_fires rule at same t = ground (arith, apply_rule-hits sid ri x e j)

      back : (0 < e.hits j) ⊎ Fires sid ri (x ∷ rules) j → 0 < after
      back (inl old) = rest.1 (inl (ground (arith, apply_rule-hits sid ri x e j)))
      back (inr (zero, rule, at, g, t)) =
          let same : x ≡ rule = cc in rest.1 (inl (first_fires rule at same t))
      back (inr (suc k, rule, at, g, t)) = rest.1 (inr (k, rule, omega arith, g, t))

  apply_rules-hits :
      (sid ri : ℕ) (rules : List Rule) (e : Evaluation) (j : ℕ)
      → (0 < (apply_rules sema sid ri rules e).hits j) ↔ ((0 < e.hits j) ⊎ Fires sid ri rules j)
  unfolding apply_rules
  apply_rules-hits sid ri [] e j =
      (inl, λ h. elim h [ inl old ↦ old | inr (k, rule, at, g, t) ↦ cc ])
  apply_rules-hits sid ri (x ∷ rules) e j =
      apply_rules_step sid ri x rules e j _
        (apply_rules-hits sid (suc ri) rules (apply_rule sema sid ri x e) j)

  -- The rule takes effect at a symbol from `sid` on, below `m`.
  abbrev FiresFrom : List Rule → ℕ → ℕ → ℕ → Type 0
  FiresFrom rules sid m j = (s : ℕ) × (sid ≤ s) × (s < m) × Fires s 0 rules j

  evaluate_step :
      (rules : List Rule) (sid m : ℕ) (e : Evaluation) (j after : ℕ)
      → sid < m
      → (0 < after)
        ↔ ((0 < (apply_rules sema sid 0 rules e).hits j) ⊎ FiresFrom rules (suc sid) m j)
      → (0 < after) ↔ ((0 < e.hits j) ⊎ FiresFrom rules sid m j)
  evaluate_step rules sid m e j after lt rest = (forth, back)
    where
      here : (0 < (apply_rules sema sid 0 rules e).hits j) ↔ ((0 < e.hits j) ⊎ Fires sid 0 rules j)
      here = apply_rules-hits sid 0 rules e j

      forth : 0 < after → (0 < e.hits j) ⊎ FiresFrom rules sid m j
      forth h = elim (rest.0 h) [
        | inl now ↦ elim (here.0 now) [
          | inl old ↦ inl old
          | inr f ↦ inr (sid, omega arith, omega arith, f)
        ]
        | inr (s, a, b, f) ↦ inr (s, omega arith, b, f)
      ]

      split : (s : ℕ) → sid ≤ s → s < m → Fires s 0 rules j → 0 < after
      split s a b f = elim (Bool-cases (ltb sid s)) [
        | inl above ↦ rest.1 (inr (s, ground arith, b, f))
        | inr same ↦ let eq : sid ≡ s = ground arith in rest.1 (inl (here.1 (inr (rw eq f))))
      ]

      back : (0 < e.hits j) ⊎ FiresFrom rules sid m j → 0 < after
      back (inl old) = rest.1 (inl (here.1 (inl old)))
      back (inr (s, a, b, f)) = split s a b f

  evaluate_from-hits :
      (rules : List Rule) (n sid m : ℕ) (e : Evaluation) (j : ℕ)
      → sid + n ≡ m
      → (0 < (evaluate_from sema rules n sid e).hits j) ↔ ((0 < e.hits j) ⊎ FiresFrom rules sid m j)
  unfolding evaluate_from
  evaluate_from-hits rules zero sid m e j at =
      (inl, λ h. elim h [ inl old ↦ old | inr (s, a, b, f) ↦ absurd (omega arith) ])
  evaluate_from-hits rules (suc n) sid m e j at =
      evaluate_step rules sid m e j _ (omega arith)
        (evaluate_from-hits rules n (suc sid) m (apply_rules sema sid 0 rules e) j (omega arith))

  -- Some symbol of the table lets the rule take effect.
  abbrev pub IsLive : Rule → Type 0
  IsLive rule = (s : ℕ) × (s < sym_count sema) × (takes_effect sema s rule ≡ true)

  evaluate-hits :
      (rules : List Rule) (j : ℕ) (rule : Rule)
      → get_elem? rules j ≡ some rule
      → (0 < (evaluate sema rules).hits j) ↔ IsLive rule
  unfolding evaluate
  evaluate-hits rules j rule g = (
    λ h. elim ((evaluate_from-hits rules n 0 n no_evaluation j (omega arith)).0 h) [
      | inl old ↦ absurd (omega arith)
      | inr (s, a, b, (k, x, at, g', t)) ↦
          let same : j ≡ k = omega arith in
          let g'' : get_elem? rules j ≡ some x = rw same g' in
          let eq : rule ≡ x = cc in (s, b, rw eq t)
    ],
    λ (s, b, t).
        (evaluate_from-hits rules n 0 n no_evaluation j (omega arith)).1
          (inr (s, omega arith, b, (j, rule, omega arith, g, t))),
  )
    where
      n : ℕ
      n = sym_count sema

  dead_from_lem :
      (hits : ℕ → ℕ) (n ri j : ℕ)
      → In j (dead_from hits n ri) ↔ ((ri ≤ j) × (j < ri + n) × (hits j ≡ 0))
  unfolding dead_from
  dead_from_lem hits zero ri j = (λ h. absurd h, λ (a, b, z). absurd (omega arith))
  dead_from_lem hits (suc n) ri j = grind (arith, dead_from_lem hits n (suc ri) j)

  get_elem?_lt :
      (rules : List Rule) (j : ℕ)
      → j < length rules
      → (rule : Rule) × (get_elem? rules j ≡ some rule)
  get_elem?_lt [] j h = elim h [ ]
  get_elem?_lt (x ∷ rules) zero h = (x, refl)
  get_elem?_lt (x ∷ rules) (suc j) h = get_elem?_lt rules j (omega arith)

  lt-length_of_get :
      (rules : List Rule) (j : ℕ) (rule : Rule) → get_elem? rules j ≡ some rule → j < length rules
  lt-length_of_get [] j rule h = cc
  lt-length_of_get (x ∷ rules) zero rule h = omega arith
  lt-length_of_get (x ∷ rules) (suc j) rule h = omega (arith, lt-length_of_get rules j rule h)

  dead_from-head :
      (hits : ℕ → ℕ) (n ri first : ℕ) (others : List ℕ)
      → dead_from hits n ri ≡ first ∷ others
      → (j : ℕ) → In j others
      → first < j
  unfolding dead_from
  dead_from-head hits zero ri first others e j m = cc
  dead_from-head hits (suc n) ri first others e j m = elim (Bool-cases (hits ri == 0)) [
    | inl zero_hits ↦
        let same : ri ∷ dead_from hits n (suc ri) ≡ first ∷ others = rw zero_hits at e in
        let head : ri ≡ first = cc in
        let tail : others ≡ dead_from hits n (suc ri) = cc in
        omega (arith, head, ((dead_from_lem hits n (suc ri) j).0 (rw tail at m)).0)
    | inr some_hits ↦ dead_from-head hits n (suc ri) first others (rw some_hits at e) j m
  ]

  -- The index is that of a rule that takes effect at no symbol.
  abbrev pub IsDead : List Rule → ℕ → Type 0
  IsDead rules j = (rule : Rule) × (get_elem? rules j ≡ some rule) × ¬ IsLive rule

  dead_from-IsDead :
      (rules : List Rule) (j : ℕ)
      → In j (dead_from (evaluate sema rules).hits (length rules) 0) ↔ IsDead rules j
  dead_from-IsDead rules j = (
    λ m.
        let (a, b, z) = (dead_from_lem (evaluate sema rules).hits (length rules) 0 j).0 m in
        let (rule, g) = get_elem?_lt rules j (omega arith) in
        (rule, g, λ live. omega (arith, (evaluate-hits rules j rule g).1 live)),
    λ (rule, g, dead). (dead_from_lem (evaluate sema rules).hits (length rules) 0 j).1 (
      omega arith,
      omega (arith, lt-length_of_get rules j rule g),
      elim (Bool-cases (ltb 0 ((evaluate sema rules).hits j))) [
        | inl some_hit ↦ absurd (dead ((evaluate-hits rules j rule g).0 (ground arith)))
        | inr no_hit ↦ ground arith
      ],
    ),
  )

  -- If the evaluation succeeds, every rule takes effect at some symbol.
  pub evaluate_rules-IsLive :
      (rules : List Rule) (direct : ℕ → Decision)
      → evaluate_rules sema rules ≡ ok direct
      → (direct ≡ (evaluate sema rules).direct)
        × ((j : ℕ) (rule : Rule) → get_elem? rules j ≡ some rule → IsLive rule)
  unfolding evaluate_rules report_dead
  evaluate_rules-IsLive rules direct h = elim (List-cases dead) [
    | inr (first, others, e) ↦ let clash = rw (e, report_dead) at h in cc
    | inl e ↦ (
      (let same : ok (evaluate sema rules).direct ≡ ok direct = rw (e, report_dead) at h in cc),
      λ j rule g. elim (Bool-cases (ltb 0 ((evaluate sema rules).hits j))) [
        | inl some_hit ↦ (evaluate-hits rules j rule g).0 (ground arith)
        | inr no_hit ↦ absurd (
            rw e at (
              (dead_from_lem (evaluate sema rules).hits (length rules) 0 j).1
                (omega arith, omega (arith, lt-length_of_get rules j rule g), ground arith)))
      ],
    )
  ]
    where
      dead : List ℕ
      dead = dead_from (evaluate sema rules).hits (length rules) 0

  -- If it fails, the error names the first of the rules that take effect at no symbol, and the
  -- others of them.
  pub evaluate_rules-IsDead :
      (rules : List Rule) (e : SelectError)
      → evaluate_rules sema rules ≡ err e
      → (first : ℕ) × (wkt : Bool) × (hint : Bool) × (others : List ℕ) × (e
          ≡ dead_rule first wkt hint others)
        × ((j : ℕ) → In j (first ∷ others) ↔ IsDead rules j)
        × ((j : ℕ) → In j others → first < j)
  unfolding evaluate_rules report_dead
  evaluate_rules-IsDead rules e h = elim (List-cases dead) [
    | inl none_dead ↦ let clash = rw (none_dead, report_dead) at h in cc
    | inr (first, others, some_dead) ↦
        let same = rw (some_dead, report_dead) at h in
        (
          first,
          (evaluate sema rules).wkt_only first,
          prefix_of_some_symbol (pattern_of rules first) sema,
          others,
          (cc),
          λ j.
              subst (λ (ds : List ℕ). In j ds ↔ IsDead rules j) some_dead
                (dead_from-IsDead rules j),
          dead_from-head (evaluate sema rules).hits (length rules) 0 first others some_dead,
        )
  ]
    where
      dead : List ℕ
      dead = dead_from (evaluate sema rules).hits (length rules) 0
