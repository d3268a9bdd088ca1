-- ===== src/Select/Closure/Commit.antt =====
-- src/select.rs: what the last part of `keep` does to each array.
use pbpp.Prelude.{
  ℕ, suc, ◌≤◌, ◌≡◌, ◌∙◌, ◌⊎◌, ◌≢◌, refl, inl, inr, true, false, Option, [], ◌∷◌, ◌++◌, arith,
  update, update_self, update-ne, ◌==◌, Bool-cases,
}
use pbpp.Sema.Kind.{is_def}
use pbpp.Sema.Symbols.{Sema, sym, IsWellFormed}
use pbpp.Select.Mark.{Mark, unmarked, container, required, strength, below}
use pbpp.Select.Decide.{Decision}
use pbpp.Select.Decide.Inherit.{Encloses}
use pbpp.Select.Closure.{State, raise, set_introduced, commit}
use pbpp.Select.Closure.Raise.{
  IsUpClosed, IsUpClosedBut, IsRaised, raise-IsRaised, raise-IsUpClosed,
}

module _ (sema : Sema) (decision : ℕ → Decision) (wf : IsWellFormed sema) where
  -- Either the symbol was queued before, and nothing is queued, or it is queued now.
  abbrev pub IsQueued : ℕ → State → State → Type 0
  IsQueued sid st st' =
      ((st'.processed ≡ st.processed)
        × (st'.queue ≡ st.queue)
        × ((2 ≤ strength (st.marks sid)) ⊎ (st.processed sid ≡ true)))
      ⊎ ((st'.processed ≡ update st.processed sid true)
          × (st'.queue ≡ st.queue ++ sid ∷ [])
          × (st.processed sid ≡ false))

  pub record IsCommitted (sid : ℕ) (level : Mark) (st st' : State) : Type 0 where
    pub same_cascade : st'.cascade ≡ st.cascade
    pub marks_self : st'.marks sid ≡ level
    pub marks_other :
        (i : ℕ)
        → i ≢ sid
        → (st'.marks i ≡ st.marks i)
          ⊎ ((st.marks i ≡ unmarked)
              × (st'.marks i ≡ container)
              × (is_def (sym sema i).kind ≡ true)
              × Encloses sema i sid)
    pub up_closed : IsUpClosed sema st'.marks
    pub queued : IsQueued sid st st'

  abbrev marked : ℕ → Mark → Option ℕ → State → State
  marked sid level by st = record st {
    marks = update st.marks sid level;
    introduced = set_introduced st.introduced sid by;
  }

  abbrev raised : ℕ → Mark → Option ℕ → State → State
  raised sid level by st =
      raise sema decision (suc sid) sid (sym sema sid).parent (marked sid level by st)

  commit-marks :
      (sid : ℕ) (level : Mark) (by : Option ℕ) (st : State)
      → (commit sema decision sid level by st).marks ≡ (raised sid level by st).marks
  unfolding commit
  commit-marks sid level by st = ground arith

  commit-cascade :
      (sid : ℕ) (level : Mark) (by : Option ℕ) (st : State)
      → (commit sema decision sid level by st).cascade ≡ (raised sid level by st).cascade
  unfolding commit
  commit-cascade sid level by st = ground arith

  commit-IsQueued-raised :
      (sid : ℕ) (level : Mark) (by : Option ℕ) (st : State)
      → IsRaised sema decision wf sid (marked sid level by st) (raised sid level by st)
      → IsQueued sid st (commit sema decision sid level by st)
  unfolding commit
  commit-IsQueued-raised sid level by st r = elim (Bool-cases (below (st.marks sid) required)) [
    | inr high ↦ inl (rw high r.same_processed, rw high r.same_queue, inl (ground arith))
    | inl low ↦ elim (Bool-cases ((raised sid level by st).processed sid)) [
      | inl old ↦ inl (
        rw (low, old) r.same_processed,
        rw (low, old) r.same_queue,
        inr (rw r.same_processed at old),
      )
      | inr new ↦ inr (
        rw (low, new) (rw r.same_processed),
        rw (low, new) (rw r.same_queue),
        rw r.same_processed at new,
      )
    ]
  ]

  raised_self :
      (sid : ℕ) (level : Mark) (by : Option ℕ) (st : State)
      → 2 ≤ strength level
      → (raised sid level by st).marks sid ≡ level
  raised_self sid level by st enough = elim (r.marks_grow sid) [
    | inl same ↦ same ∙ update_self st.marks sid level
    | inr (was, _, _, _) ↦
        let level_is : level ≡ unmarked = rw (update_self st.marks sid level) at was in
        let no : 2 ≤ strength unmarked = rw level_is at enough in absurd (omega (arith, no))
  ]
    where
      r : IsRaised sema decision wf sid (marked sid level by st) (raised sid level by st)
      r =
          raise-IsRaised sema decision wf (suc sid) sid (sym sema sid).parent
            (marked sid level by st) refl

  marked-IsUpClosedBut :
      (sid : ℕ) (level : Mark) (marks : ℕ → Mark)
      → 2 ≤ strength level
      → IsUpClosed sema marks
      → IsUpClosedBut sema sid (update marks sid level)
  marked-IsUpClosedBut sid level marks enough up i p ne e m =
      let kept : 1 ≤ strength (marks p) = up i p e (rw (update-ne marks sid i level ne) at m) in
      elim (Bool-cases (sid == p)) [ inl same ↦ rw same (omega arith) | inr other ↦ rw other kept ]

  pub commit-IsCommitted :
      (sid : ℕ) (level : Mark) (by : Option ℕ) (st : State)
      → 2 ≤ strength level
      → IsUpClosed sema st.marks
      → IsCommitted sid level st (commit sema decision sid level by st)
  commit-IsCommitted sid level by st enough up =
      let r =
        raise-IsRaised sema decision wf (suc sid) sid (sym sema sid).parent (marked sid level by st)
          refl in
      record {
        same_cascade = commit-cascade sid level by st ∙ r.same_cascade;
        marks_self = rw commit-marks (raised_self sid level by st enough);
        marks_other =
            λ i ne. rw commit-marks (rw (update-ne st.marks sid i level ne) at (r.marks_grow i));
        up_closed = rw commit-marks (
            raise-IsUpClosed sema decision wf (suc sid) sid (sym sema sid).parent
              (marked sid level by st) refl (λ p e. omega (arith, wf.parent_lt sid p e))
              (marked-IsUpClosedBut sid level st.marks enough up));
        queued = commit-IsQueued-raised sid level by st r;
      }

  pub commit-IsQueued :
      (sid : ℕ) (level : Mark) (by : Option ℕ) (st : State)
      → IsQueued sid st (commit sema decision sid level by st)
  commit-IsQueued sid level by st = commit-IsQueued-raised sid level by st (
      raise-IsRaised sema decision wf (suc sid) sid (sym sema sid).parent (marked sid level by st)
        refl)
