-- ===== src/Select/Closure/Raise.antt =====
-- src/select.rs: raising the enclosing definitions to containers.
use pbpp.Prelude.{
  sym as flip, ◌∙◌, ℕ, zero, suc, ◌≤◌, ◌<◌, ◌≡◌, ◌⊎◌, ◌≢◌, refl, inl, inr, true, false, Option,
  none, some, arith, update, ◌==◌, Bool-cases,
}
use pbpp.Sema.Kind.{is_def}
use pbpp.Sema.Symbols.{Sema, sym, IsWellFormed}
use pbpp.Select.Mark.{Mark, unmarked, container, required, explicit, strength, at_least}
use pbpp.Select.Decide.{Decision}
use pbpp.Select.Decide.Inherit.{Encloses, itself, outward}
use pbpp.Select.Closure.{State, raise, set_introduced}

-- Nothing that is kept loses its enclosing definition.
abbrev pub IsUpClosed : Sema → (ℕ → Mark) → Type 0
IsUpClosed sema marks =
    (i p : ℕ) → (sym sema i).parent ≡ some p → 1 ≤ strength (marks i) → 1 ≤ strength (marks p)

-- The same, but for the symbol `child`.
abbrev pub IsUpClosedBut : Sema → ℕ → (ℕ → Mark) → Type 0
IsUpClosedBut sema child marks =
    (i p : ℕ)
    → i ≢ child
    → (sym sema i).parent ≡ some p
    → 1 ≤ strength (marks i)
    → 1 ≤ strength (marks p)

module _ (sema : Sema) (decision : ℕ → Decision) (wf : IsWellFormed sema) where
  -- What raising above `c` keeps of the state, and how marks change: from nothing to a container,
  -- at definitions around `c` only.
  pub record IsRaised (c : ℕ) (st st' : State) : Type 0 where
    pub same_cascade : st'.cascade ≡ st.cascade
    pub same_queue : st'.queue ≡ st.queue
    pub same_processed : st'.processed ≡ st.processed
    pub marks_grow :
        (i : ℕ)
        → (st'.marks i ≡ st.marks i)
          ⊎ ((st.marks i ≡ unmarked)
              × (st'.marks i ≡ container)
              × (is_def (sym sema i).kind ≡ true)
              × Encloses sema i c)

  IsRaised-refl : (c : ℕ) (st : State) → IsRaised c st st
  IsRaised-refl c st = record {
    same_cascade = refl;
    same_queue = refl;
    same_processed = refl;
    marks_grow = λ i. inl refl;
  }

  abbrev marked_container : State → ℕ → (ℕ → Option ℕ) → State
  marked_container st p introduced = record st {
    marks = update st.marks p container;
    introduced = introduced;
  }

  unmarked_of_low : (m : Mark) → at_least m container ≡ false → m ≡ unmarked
  unmarked_of_low unmarked h = refl
  unmarked_of_low container h = cc
  unmarked_of_low required h = cc
  unmarked_of_low explicit h = cc

  IsRaised-step :
      (st st' : State) (c p : ℕ) (introduced : ℕ → Option ℕ)
      → at_least (st.marks p) container ≡ false
      → (sym sema c).parent ≡ some p
      → IsRaised p (marked_container st p introduced) st'
      → IsRaised c st st'
  IsRaised-step st st' c p introduced low up h = record {
    same_cascade = h.same_cascade;
    same_queue = h.same_queue;
    same_processed = h.same_processed;
    marks_grow = λ i. at i (unmarked_of_low (st.marks p) low) (h.marks_grow i);
  }
    where
      at :
          (i : ℕ)
          → st.marks p ≡ unmarked
          → (st'.marks i ≡ update st.marks p container i)
            ⊎ ((update st.marks p container i ≡ unmarked)
                × (st'.marks i ≡ container)
                × (is_def (sym sema i).kind ≡ true)
                × Encloses sema i p)
          → (st'.marks i ≡ st.marks i)
            ⊎ ((st.marks i ≡ unmarked)
                × (st'.marks i ≡ container)
                × (is_def (sym sema i).kind ≡ true)
                × Encloses sema i c)
      at i was (inl e) = elim (Bool-cases (p == i)) [
        | inl same ↦
            let eq : p ≡ i = ground arith in
            inr (
              rw eq at was,
              rw same at e,
              rw eq at (wf.parent_is_def c p up),
              rw eq at (outward up itself),
            )
        | inr other ↦ inl (rw other at e)
      ]
      at i was (inr (a, b, d, enc)) = elim (Bool-cases (p == i)) [
        | inl same ↦ let no : container ≡ unmarked = rw same at a in cc
        | inr other ↦ inr (rw other at a, b, d, outward up enc)
      ]

  pub raise-IsRaised :
      (f c : ℕ) (cur : Option ℕ) (st : State)
      → (sym sema c).parent ≡ cur
      → IsRaised c st (raise sema decision f c cur st)
  unfolding raise
  raise-IsRaised f c none st e = IsRaised-refl c st
  raise-IsRaised zero c (some p) st e = IsRaised-refl c st
  raise-IsRaised (suc f) c (some p) st e = elim (Bool-cases (at_least (st.marks p) container)) [
    | inl high ↦ rw high (IsRaised-refl c st)
    | inr low ↦ rw low (
        IsRaised-step st _ c p _ low e
          (raise-IsRaised f p (sym sema p).parent (marked_container st p _) refl))
  ]

  container-IsUpClosedBut :
      (st : State) (c p : ℕ) (introduced : ℕ → Option ℕ)
      → (sym sema c).parent ≡ some p
      → IsUpClosedBut sema c st.marks
      → IsUpClosedBut sema p (marked_container st p introduced).marks
  container-IsUpClosedBut st c p introduced up h i q ne e m = elim (Bool-cases (p == q)) [
    | inl same ↦ rw same (omega arith)
    | inr other ↦ rw other (h i q (λ (eq : i ≡ c). ground arith) e (ground arith))
  ]

  -- With a round for each id below the symbol, raising restores the closure under enclosing
  -- definitions.
  pub raise-IsUpClosed :
      (f c : ℕ) (cur : Option ℕ) (st : State)
      → (sym sema c).parent ≡ cur
      → ((p : ℕ) → cur ≡ some p → p < f)
      → IsUpClosedBut sema c st.marks
      → IsUpClosed sema (raise sema decision f c cur st).marks
  unfolding raise
  raise-IsUpClosed f c none st e bound h = λ i p up m. elim (Bool-cases (i == c)) [
    | inl same ↦ let eq : i ≡ c = ground arith in let up' = rw eq at up in cc
    | inr other ↦ h i p (λ eq. ground arith) up m
  ]
  raise-IsUpClosed zero c (some p) st e bound h = absurd (omega (arith, bound p refl))
  raise-IsUpClosed (suc f) c (some p) st e bound h =
      elim (Bool-cases (at_least (st.marks p) container)) [
        | inl high ↦ rw high (λ i q up m. stops i q up m high)
        | inr low ↦ rw low (
            raise-IsUpClosed f p (sym sema p).parent (marked_container st p _) refl
              (λ q above. omega (arith, bound p refl, wf.parent_lt p q above))
              (container-IsUpClosedBut st c p (set_introduced st.introduced p (some c)) e h))
      ]
    where
      stops :
          (i q : ℕ)
          → (sym sema i).parent ≡ some q
          → 1 ≤ strength (st.marks i)
          → at_least (st.marks p) container ≡ true
          → 1 ≤ strength (st.marks q)
      stops i q up m high = elim (Bool-cases (i == c)) [
        | inl same ↦
            let eq : i ≡ c = ground arith in
            let eq' : some p ≡ some q = flip e ∙ rw eq at up in
            let eq'' : p ≡ q = cc in rw (← eq'') (ground arith)
        | inr other ↦ h i q (λ eq. ground arith) up m
      ]
