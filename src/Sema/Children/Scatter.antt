-- ===== src/Sema/Children/Scatter.antt =====
-- src/sema.rs: the scatter of the children over the arena.
use pbpp.Prelude.{
  get_or-set_ne, get_or-set_self, length-set, ℕ, zero, suc, ◌+◌, ◌≤◌, ◌<◌, ◌≡◌, ◌≢◌, ◌∙◌, refl, inl,
  inr, ◌⊎◌, ⊎_elim, subst, true, false, none, some, List, [], ◌∷◌, arith, get_or, set, length, ◌==◌,
  ltb, Bool-cases, Option-cases,
}
use pbpp.Sema.Symbols.{Symbol}
use pbpp.Sema.Children.{move_cursor, write_child, scatter}
use pbpp.Sema.Children.Arena.{is_parent, kids, InTable}

-- Where the cursor of `p` stands, and where the children still to come of `p` end.
abbrev pub cur : List ℕ → ℕ → ℕ
cur cursor p = get_or cursor p 0

abbrev pub end : List ℕ → List Symbol → ℕ → ℕ → ℕ
end cursor ss i p = cur cursor p + length (kids p ss i)

-- The places still to be filled lie in the arena, parent behind parent.
pub record IsRoomy (n : ℕ) (ss : List Symbol) (i : ℕ) (cursor arena : List ℕ) : Type 0 where
  pub cursors : length cursor ≡ suc n
  pub apart : (p q : ℕ) → p < q → q < n → end cursor ss i p ≤ cur cursor q
  pub inside : (p : ℕ) → p < n → end cursor ss i p ≤ length arena

-- What the scatter of the symbols from `i` on leaves.
pub record IsScattered (n : ℕ) (ss : List Symbol) (i : ℕ) (cursor arena result : List ℕ)
    : Type 0 where
  pub same_length : length result ≡ length arena
  pub filled :
      (p t : ℕ)
      → p < n
      → t < length (kids p ss i)
      → get_or result (cur cursor p + t) 0 ≡ get_or (kids p ss i) t 0
  pub untouched :
      (x : ℕ)
      → ((p : ℕ) → p < n → (x < cur cursor p) ⊎ (end cursor ss i p ≤ x))
      → get_or result x 0 ≡ get_or arena x 0

cur_self : (cursor : List ℕ) (p v : ℕ) → p < length cursor → cur (set cursor p v) p ≡ v
cur_self cursor p v h = get_or-set_self cursor p v 0 h

cur_other : (cursor : List ℕ) (p q v : ℕ) → q ≢ p → cur (set cursor p v) q ≡ cur cursor q
cur_other cursor p q v ne = get_or-set_ne cursor p q v 0 ne

kids_own :
    (p i : ℕ) (s : Symbol) (ss : List Symbol)
    → s.parent ≡ some p
    → kids p (s ∷ ss) i ≡ i ∷ kids p ss (suc i)
kids_own p i s ss e = let here : is_parent s.parent p ≡ true = rw e (ground arith) in rw here

kids_other :
    (p q i : ℕ) (s : Symbol) (ss : List Symbol)
    → s.parent ≡ some p
    → q ≢ p
    → kids q (s ∷ ss) i ≡ kids q ss (suc i)
kids_other p q i s ss e ne =
    let there : is_parent s.parent q ≡ false = rw e (ground arith) in rw there

kids-none :
    (q i : ℕ) (s : Symbol) (ss : List Symbol)
    → s.parent ≡ none
    → kids q (s ∷ ss) i ≡ kids q ss (suc i)
kids-none q i s ss e = let there : is_parent s.parent q ≡ false = rw e in rw there

module _ (n p i : ℕ) (s : Symbol) (ss : List Symbol) (cursor arena : List ℕ)
    (child : s.parent ≡ some p) (known : p < n) (roomy : IsRoomy n (s ∷ ss) i cursor arena) where
  abbrev moved : List ℕ
  moved = set cursor p (cur cursor p + 1)

  abbrev written : List ℕ
  written = set arena (cur cursor p) i

  own_length : length (kids p (s ∷ ss) i) ≡ suc (length (kids p ss (suc i)))
  own_length = rw (kids_own p i s ss child)

  own_cur : cur moved p ≡ cur cursor p + 1
  own_cur = cur_self cursor p (cur cursor p + 1) (omega (arith, roomy.cursors))

  own_end : end moved ss (suc i) p ≡ end cursor (s ∷ ss) i p
  own_end = omega (arith, own_length, own_cur)

  other_cur : (q : ℕ) → q ≢ p → cur moved q ≡ cur cursor q
  other_cur q ne = cur_other cursor p q (cur cursor p + 1) ne

  other_end : (q : ℕ) → q ≢ p → end moved ss (suc i) q ≡ end cursor (s ∷ ss) i q
  other_end q ne = rw (kids_other p q i s ss child ne) (rw (other_cur q ne))

  same_end : (q : ℕ) → end moved ss (suc i) q ≡ end cursor (s ∷ ss) i q
  same_end q = elim (Bool-cases (q == p)) [
    | inl here ↦
        let e : p ≡ q = ground arith in
        subst (λ (x : ℕ). end moved ss (suc i) x ≡ end cursor (s ∷ ss) i x) e own_end
    | inr there ↦ other_end q (ground arith)
  ]

  cur-moved : (q : ℕ) → cur cursor q ≤ cur moved q
  cur-moved q = elim (Bool-cases (q == p)) [
    | inl here ↦ let e : q ≡ p = ground arith in rw e (omega (arith, own_cur))
    | inr there ↦ omega (arith, other_cur q (ground arith))
  ]

  room : cur cursor p < length arena
  room = omega (arith, own_length, roomy.inside p known)

  step-IsRoomy : IsRoomy n ss (suc i) moved written
  step-IsRoomy = record {
    cursors = length-set cursor p (cur cursor p + 1) ∙ roomy.cursors;
    apart = λ a b l k. omega (arith, same_end a, roomy.apart a b l k, cur-moved b);
    inside = λ a k. omega (arith, same_end a, roomy.inside a k, length-set arena (cur cursor p) i);
  }

  -- The place that the child is written to belongs to no child to come.
  cleared : (q : ℕ) → q < n → (cur cursor p < cur moved q) ⊎ (end moved ss (suc i) q ≤ cur cursor p)
  cleared q k = elim (Bool-cases (q == p)) [
    | inl here ↦ let e : q ≡ p = ground arith in rw e (inl (omega (arith, own_cur)))
    | inr there ↦ elim (Bool-cases (ltb q p)) [
      | inl before ↦ inr (omega (arith, same_end q, roomy.apart q p (ground arith) known))
      | inr behind ↦
          let l : p < q = ground arith in
          inl (omega (arith, other_cur q (ground arith), roomy.apart p q l k, own_length))
    ]
  ]

  module _ (result : List ℕ) (r : IsScattered n ss (suc i) moved written result) where
    own_filled :
        (t : ℕ)
        → t < length (kids p (s ∷ ss) i)
        → get_or result (cur cursor p + t) 0 ≡ get_or (kids p (s ∷ ss) i) t 0
    own_filled zero h =
        let here : cur cursor p + 0 ≡ cur cursor p = omega arith in
        rw here (
          rw (kids_own p i s ss child)
            (r.untouched (cur cursor p) cleared ∙ get_or-set_self arena (cur cursor p) i 0 room))
    own_filled (suc t) h =
        let shift : cur cursor p + suc t ≡ cur moved p + t = omega (arith, own_cur) in
        rw shift (rw (kids_own p i s ss child) (r.filled p t known (omega (arith, own_length))))

    step-IsScattered : IsScattered n (s ∷ ss) i cursor arena result
    step-IsScattered = record {
      same_length = r.same_length ∙ length-set arena (cur cursor p) i;
      filled = λ q t k h. elim (Bool-cases (q == p)) [
        | inl here ↦
            let e : p ≡ q = ground arith in
            subst
              (λ (x : ℕ).
                (u : ℕ)
                → u < length (kids x (s ∷ ss) i)
                → get_or result (cur cursor x + u) 0 ≡ get_or (kids x (s ∷ ss) i) u 0)
              e own_filled t h
        | inr there ↦
            let ne : q ≢ p = ground arith in
            rw (kids_other p q i s ss child ne)
              (rw (← other_cur q ne) (r.filled q t k (rw (kids_other p q i s ss child ne) at h)))
      ];
      untouched = λ x away.
          let not_here : x ≢ cur cursor p = λ e.
            ⊎_elim (λ l. omega (arith, e, l)) (λ l. omega (arith, e, l, own_length))
              (away p known) in
          r.untouched x (λ q k. elim (away q k) [
            | inl before ↦ inl (omega (arith, cur-moved q))
            | inr behind ↦ inr (omega (arith, same_end q))
          ])
          ∙ get_or-set_ne arena (cur cursor p) x i 0 not_here;
    }

-- A symbol without parent changes nothing.
step_none :
    (n i : ℕ) (s : Symbol) (ss : List Symbol) (cursor arena result : List ℕ)
    → s.parent ≡ none
    → IsScattered n ss (suc i) cursor arena result
    → IsScattered n (s ∷ ss) i cursor arena result
step_none n i s ss cursor arena result e r = record {
  same_length = r.same_length;
  filled = λ q t k h. rw (kids-none q i s ss e) (r.filled q t k (rw (kids-none q i s ss e) at h));
  untouched = λ x away. r.untouched x (λ q k. rw (kids-none q i s ss e) at (away q k));
}

IsRoomy-none :
    (n i : ℕ) (s : Symbol) (ss : List Symbol) (cursor arena : List ℕ)
    → s.parent ≡ none
    → IsRoomy n (s ∷ ss) i cursor arena
    → IsRoomy n ss (suc i) cursor arena
IsRoomy-none n i s ss cursor arena e r = record {
  cursors = r.cursors;
  apart = λ p q l k. rw (kids-none p i s ss e) at (r.apart p q l k);
  inside = λ p k. rw (kids-none p i s ss e) at (r.inside p k);
}

-- Every child lands at its place: each parent's in the order of the symbols.
pub scatter-IsScattered :
    (n : ℕ) (ss : List Symbol) (i : ℕ) (cursor arena : List ℕ)
    → InTable n ss
    → IsRoomy n ss i cursor arena
    → IsScattered n ss i cursor arena (scatter ss i cursor arena)
unfolding scatter
scatter-IsScattered n [] i cursor arena known r = record {
  same_length = refl;
  filled = λ p t k h. absurd (omega arith);
  untouched = λ x away. refl;
}
scatter-IsScattered n (s ∷ ss) i cursor arena known r = elim (Option-cases s.parent) [
  | inl e ↦
      let ec : move_cursor s.parent cursor ≡ cursor = rw e in
      let ea : write_child s.parent i cursor arena ≡ arena = rw e in
      rw (ec, ea)
        (step_none n i s ss cursor arena (scatter ss (suc i) cursor arena) e (
          scatter-IsScattered n ss (suc i) cursor arena known.1
            (IsRoomy-none n i s ss cursor arena e r)))
  | inr (p, e) ↦
      let k = known.0 p e in
      let cursor' = moved n p i s ss cursor arena e k r in
      let arena' = written n p i s ss cursor arena e k r in
      let ec : move_cursor s.parent cursor ≡ cursor' = rw e in
      let ea : write_child s.parent i cursor arena ≡ arena' = rw e in
      rw (ec, ea)
        (step-IsScattered n p i s ss cursor arena e k r (scatter ss (suc i) cursor' arena') (
          scatter-IsScattered n ss (suc i) cursor' arena' known.1
            (step-IsRoomy n p i s ss cursor arena e k r)))
]
