-- ===== src/Select/Closure/Invariant.antt =====
-- src/select.rs: what is true of the closure's arrays between any two calls of `keep`.
use pbpp.Prelude.{
  ℕ, ◌≤◌, ◌≡◌, ◌⊎◌, refl, inl, inr, true, false, Option, some, arith, update, update_self, ◌==◌,
  Bool-cases, In,
}
use pbpp.Sema.Kind.{is_def, carries_refs}
use pbpp.Sema.Symbols.{Sema, Ref, sym, children, refs}
use pbpp.Select.Mark.{Mark, unmarked, required, strength}
use pbpp.Select.Decide.{Decision, is_none}
use pbpp.Select.Decide.Inherit.{Encloses}
use pbpp.Select.Closure.{State, is_content, content_level}
use pbpp.Select.Closure.Raise.{IsUpClosed}
use pbpp.Select.Closure.Reached.{Offered, IsClean, Reached}
use pbpp.Select.Closure.References.{HasCascade}

-- The symbol is kept at least at the level, or it has been dropped by a cascade.
abbrev pub Held : State → ℕ → Mark → Type 0
Held st c level = (strength level ≤ strength (st.marks c)) ⊎ (st.cascade c ≡ true)

module _ (sema : Sema) (decision : ℕ → Decision) where
  -- All that `process` keeps on behalf of the symbol is kept.
  pub record IsSettled (st : State) (i : ℕ) : Type 0 where
    pub contents :
        is_none (sym sema i).file ≡ false
        → is_def (sym sema i).kind ≡ true
        → (c : ℕ) → In c (children sema i)
        → is_content sema decision c ≡ true
        → Held st c (content_level sema decision c)
    pub targets :
        is_none (sym sema i).file ≡ false
        → carries_refs (sym sema i).kind ≡ true
        → (r : Ref) → In r (refs sema i)
        → Held st r.target required

  pub record Inv (st : State) : Type 0 where
    pub up_closed : IsUpClosed sema st.marks
    pub full : (i : ℕ) → 2 ≤ strength (st.marks i) → st.processed i ≡ true
    pub clean : (i : ℕ) → 1 ≤ strength (st.marks i) → IsClean sema decision i
    pub cascaded :
        (i : ℕ) → st.cascade i ≡ true → Offered sema decision i × HasCascade sema decision i
    pub sound : (i : ℕ) → 2 ≤ strength (st.marks i) → Offered sema decision i
    pub sound_queue : (i : ℕ) → In i st.queue → Reached sema decision i
    pub sound_container :
        (i : ℕ)
        → 1 ≤ strength (st.marks i)
        → (j : ℕ) × Encloses sema i j × (2 ≤ strength (st.marks j))

  -- Every symbol that was ever queued waits in the queue, is the one in work, or is settled.
  abbrev pub Settled : Option ℕ → State → Type 0
  Settled busy st =
      (i : ℕ) → st.processed i ≡ true → In i st.queue ⊎ ((busy ≡ some i) ⊎ IsSettled st i)

  pub record Grows (st st' : State) : Type 0 where
    pub held : (c : ℕ) (level : Mark) → Held st c level → Held st' c level

  pub Grows-refl : (st : State) → Grows st st
  Grows-refl st = record { held = λ c level h. h }

  pub Grows-trans : {a b c : State} → Grows a b → Grows b c → Grows a c
  Grows-trans f g = record { held = λ c level h. g.held c level (f.held c level h) }

  pub IsSettled-Grows : {st st' : State} (i : ℕ) → Grows st st' → IsSettled st i → IsSettled st' i
  IsSettled-Grows i g s = record {
    contents = λ file def c m ok. g.held c _ (s.contents file def c m ok);
    targets = λ file carries r m. g.held r.target required (s.targets file carries r m);
  }

  -- What one call of `keep` does for the symbol it is called on.
  pub record IsKept (busy : Option ℕ) (sid : ℕ) (level : Mark) (st st' : State) : Type 0 where
    pub inv : Inv st'
    pub settled : Settled busy st'
    pub grows : Grows st st'
    pub held : Held st' sid level

  -- A symbol with a reference that cascades is not marked.
  unmarked_of_cascade :
      (st : State) (sid : ℕ) → Inv st → HasCascade sema decision sid → st.marks sid ≡ unmarked
  unmarked_of_cascade st sid v (carries, (r, m, (d, e))) = low (st.marks sid) refl
    where
      low : (k : Mark) → st.marks sid ≡ k → st.marks sid ≡ unmarked
      low unmarked same = same
      low k same =
          let kept : 1 ≤ strength (st.marks sid) = rw same (omega arith) in
          let clash = v.clean sid kept carries r m in let no : true ≡ false = rw e at clash in cc

  abbrev cascade_state : ℕ → State → State
  cascade_state sid st = record st {
    cascade = update st.cascade sid true;
    marks = update st.marks sid unmarked;
  }

  same_marks :
      (st : State) (sid i : ℕ)
      → st.marks sid ≡ unmarked
      → update st.marks sid unmarked i ≡ st.marks i
  same_marks st sid i e = elim (Bool-cases (sid == i)) [
    | inl same ↦ let eq : sid ≡ i = ground arith in rw same (rw (← eq) (ground arith))
    | inr other ↦ rw other
  ]

  dropped-Grows : (st : State) (sid : ℕ) → st.marks sid ≡ unmarked → Grows st (cascade_state sid st)
  dropped-Grows st sid e = record {
    held = λ c level h. elim h [
      | inl marked ↦ inl (rw (same_marks st sid c e) marked)
      | inr gone ↦ inr (ground arith)
    ];
  }

  pub dropped-IsKept :
      (busy : Option ℕ) (sid : ℕ) (level : Mark) (st : State)
      → Inv st
      → Settled busy st
      → Offered sema decision sid
      → HasCascade sema decision sid
      → IsKept busy sid level st (cascade_state sid st)
  dropped-IsKept busy sid level st v s offered bad =
      let e = unmarked_of_cascade st sid v bad in
      let same = λ (i : ℕ). same_marks st sid i e in
      let g = dropped-Grows st sid e in
      record {
        inv = record {
          up_closed = λ i p up m. rw (same p) (v.up_closed i p up (rw (same i) at m));
          full = λ i m. v.full i (rw (same i) at m);
          clean = λ i m. v.clean i (rw (same i) at m);
          cascaded = λ i gone. elim (Bool-cases (sid == i)) [
            | inl this ↦ let eq : sid ≡ i = ground arith in rw (← eq) (offered, bad)
            | inr other ↦ v.cascaded i (rw other at gone)
          ];
          sound = λ i m. v.sound i (rw (same i) at m);
          sound_queue = v.sound_queue;
          sound_container = λ i m.
              let (j, enc, full) = v.sound_container i (rw (same i) at m) in
              (j, enc, rw (same j) full);
        };
        settled = λ i p. elim (s i p) [
          | inl waits ↦ inl waits
          | inr (inl work) ↦ inr (inl work)
          | inr (inr done) ↦ inr (inr (IsSettled-Grows i g done))
        ];
        grows = g;
        held = inr (update_self st.cascade sid true);
      }
