-- ===== src/Select/Closure/Keep.antt =====
-- src/select.rs: a call of `keep` preserves the invariant and keeps its symbol or drops it.
use pbpp.Prelude.{
  ℕ, ◌≤◌, ◌≡◌, ◌⊎◌, ◌≢◌, inl, inr, true, false, Option, some, [], ◌∷◌, arith, update_self,
  update-ne, ◌==◌, Bool-cases, In, In-append, ok,
}
use pbpp.Sema.Kind.{SymKind, is_def, carries_refs}
use pbpp.Sema.Symbols.{Sema, sym, IsWellFormed}
use pbpp.Select.Mark.{Mark, container, strength, at_least}
use pbpp.Select.Decide.{Decision}
use pbpp.Select.Decide.Inherit.{Encloses, itself}
use pbpp.Select.Closure.{State, keep}
use pbpp.Select.Closure.Reached.{Offered, IsClean}
use pbpp.Select.Closure.References.{already_dropped, already_kept, dropped, committed, keep-Kept}
use pbpp.Select.Closure.Commit.{IsCommitted, commit-IsCommitted}
use pbpp.Select.Closure.Invariant.{
  IsSettled, Inv, Settled, Grows, Grows-refl, IsSettled-Grows, IsKept, dropped-IsKept,
}

pub def-carries_refs : (k : SymKind) → is_def k ≡ true → carries_refs k ≡ true → ⊥
unfolding is_def carries_refs
def-carries_refs SymKind.message d c = cc
def-carries_refs SymKind.field d c = cc
def-carries_refs _ d c = cc

nat_cases : (i j : ℕ) → (i ≡ j) ⊎ (i ≢ j)
nat_cases i j = elim (Bool-cases (i == j)) [
  | inl same ↦ inl (ground arith)
  | inr other ↦ inr (λ e. ground arith)
]

module _ (sema : Sema) (decision : ℕ → Decision) (wf : IsWellFormed sema) where
  module _ {st st' : State} (sid : ℕ) (level : Mark) (v : Inv sema decision st)
      (c : IsCommitted sema decision wf sid level st st') (enough : 2 ≤ strength level)
      (low : at_least (st.marks sid) level ≡ false) where
    marks_mono : (i : ℕ) → strength (st.marks i) ≤ strength (st'.marks i)
    marks_mono i = elim (nat_cases i sid) [
      | inl e ↦ rw e (rw c.marks_self (ground arith))
      | inr ne ↦ elim (c.marks_other i ne) [
        | inl same ↦ rw same (omega arith)
        | inr (was, _, _, _) ↦ rw was (omega arith)
      ]
    ]

    committed-Grows : Grows sema decision st st'
    committed-Grows = record {
      held = λ i l h. elim h [
        | inl marked ↦ inl (omega (arith, marks_mono i))
        | inr gone ↦ inr (rw c.same_cascade gone)
      ];
    }

    processed_grows : (i : ℕ) → st.processed i ≡ true → st'.processed i ≡ true
    processed_grows i p = elim c.queued [
      | inl (same, _, _) ↦ rw same p
      | inr (now, _, _) ↦ rw now (ground arith)
    ]

    processed_self : st'.processed sid ≡ true
    processed_self = elim c.queued [
      | inl (same, _, inl full) ↦ processed_grows sid (v.full sid full)
      | inl (same, _, inr old) ↦ processed_grows sid old
      | inr (now, _, _) ↦ rw now (update_self st.processed sid true)
    ]

    -- A mark of the new state is the symbol's own, an old one, or a new container around it.
    mark_cases :
        (i : ℕ)
        → (i ≡ sid)
          ⊎ ((st'.marks i ≡ st.marks i)
              ⊎ ((st'.marks i ≡ container)
                  × (is_def (sym sema i).kind ≡ true)
                  × Encloses sema i sid))
    mark_cases i = elim (nat_cases i sid) [
      | inl e ↦ inl e
      | inr ne ↦ elim (c.marks_other i ne) [
        | inl same ↦ inr (inl same)
        | inr (_, now, def, enc) ↦ inr (inr (now, def, enc))
      ]
    ]

    committed-full : (i : ℕ) → 2 ≤ strength (st'.marks i) → st'.processed i ≡ true
    committed-full i m = elim (mark_cases i) [
      | inl e ↦ rw e processed_self
      | inr (inl same) ↦ processed_grows i (v.full i (rw same at m))
      | inr (inr (now, _, _)) ↦
          let no : 2 ≤ strength container = rw now at m in absurd (omega (arith, no))
    ]

    module _ (offered : Offered sema decision sid) (clean : IsClean sema decision sid) where
      committed-IsClean : (i : ℕ) → 1 ≤ strength (st'.marks i) → IsClean sema decision i
      committed-IsClean i m = elim (mark_cases i) [
        | inl e ↦ rw e clean
        | inr (inl same) ↦ v.clean i (rw same at m)
        | inr (inr (_, def, _)) ↦
            λ carries r mem. absurd (def-carries_refs (sym sema i).kind def carries)
      ]

      committed_sound : (i : ℕ) → 2 ≤ strength (st'.marks i) → Offered sema decision i
      committed_sound i m = elim (mark_cases i) [
        | inl e ↦ rw e offered
        | inr (inl same) ↦ v.sound i (rw same at m)
        | inr (inr (now, _, _)) ↦
            let no : 2 ≤ strength container = rw now at m in absurd (omega (arith, no))
      ]

      committed-container :
          (i : ℕ)
          → 1 ≤ strength (st'.marks i)
          → (j : ℕ) × Encloses sema i j × (2 ≤ strength (st'.marks j))
      committed-container i m = elim (mark_cases i) [
        | inl e ↦ rw e (sid, itself, rw c.marks_self enough)
        | inr (inl same) ↦
            let (j, enc, full) = v.sound_container i (rw same at m) in
            (j, enc, omega (arith, marks_mono j))
        | inr (inr (_, _, enc)) ↦ (sid, enc, rw c.marks_self enough)
      ]

      committed-queue : (i : ℕ) → In i st'.queue → Offered sema decision i × IsClean sema decision i
      committed-queue i m = elim c.queued [
        | inl (_, same, _) ↦ v.sound_queue i (rw same at m)
        | inr (_, now, _) ↦ elim ((In-append i st.queue (sid ∷ [])).0 (rw now at m)) [
          | inl old ↦ v.sound_queue i old
          | inr (inl e) ↦ rw e (offered, clean)
          | inr (inr nothing) ↦ absurd nothing
        ]
      ]

      committed-Inv : Inv sema decision st'
      committed-Inv = record {
        up_closed = c.up_closed;
        full = committed-full;
        clean = committed-IsClean;
        cascaded = λ i gone. v.cascaded i (rw c.same_cascade at gone);
        sound = committed_sound;
        sound_queue = committed-queue;
        sound_container = committed-container;
      }

    still :
        (busy : Option ℕ) (i : ℕ)
        → ((j : ℕ) → In j st.queue → In j st'.queue)
        → In i st.queue ⊎ ((busy ≡ some i) ⊎ IsSettled sema decision st i)
        → In i st'.queue ⊎ ((busy ≡ some i) ⊎ IsSettled sema decision st' i)
    still busy i more (inl waits) = inl (more i waits)
    still busy i more (inr (inl work)) = inr (inl work)
    still busy i more (inr (inr done)) =
        inr (inr (IsSettled-Grows sema decision i committed-Grows done))

    committed-Settled :
        (busy : Option ℕ) → Settled sema decision busy st → Settled sema decision busy st'
    committed-Settled busy s i p = elim c.queued [
      | inl (same, queue, _) ↦ still busy i (λ j m. rw queue m) (s i (rw same at p))
      | inr (now, queue, _) ↦ elim (nat_cases sid i) [
        | inl e ↦ inl (rw queue ((In-append i st.queue (sid ∷ [])).1 (inr (inl (rw e)))))
        | inr ne ↦
            still busy i (λ j m. rw queue ((In-append j st.queue (sid ∷ [])).1 (inl m)))
              (s i (rw (now, update-ne st.processed sid i true (λ e. ne (rw e))) at p))
      ]
    ]

  -- `keep` preserves the invariant, undoes nothing that is kept, and ends with its symbol kept at
  -- the level asked for, or dropped by a cascade.
  pub keep-IsKept :
      (busy : Option ℕ) (sid : ℕ) (level : Mark) (by : Option ℕ) (st st' : State)
      → 2 ≤ strength level
      → Offered sema decision sid
      → Inv sema decision st
      → Settled sema decision busy st
      → keep sema decision sid level by st ≡ ok st'
      → IsKept sema decision busy sid level st st'
  keep-IsKept busy sid level by st st' enough offered v s h =
      elim (keep-Kept sema decision sid level by st st' h) [
        | already_dropped gone e ↦
            rw e (record {
              inv = v;
              settled = s;
              grows = Grows-refl sema decision st;
              held = inr gone;
            })
        | already_kept high e ↦ rw e (record {
          inv = v;
          settled = s;
          grows = Grows-refl sema decision st;
          held = inl (ground arith);
        })
        | dropped bad e ↦ rw e (dropped-IsKept sema decision busy sid level st v s offered bad)
        | committed undropped low clean e ↦ rw e (
            commits (commit-IsCommitted sema decision wf sid level by st enough v.up_closed) low
              clean)
      ]
    where
      commits :
          {t : State}
          → IsCommitted sema decision wf sid level st t
          → at_least (st.marks sid) level ≡ false
          → IsClean sema decision sid
          → IsKept sema decision busy sid level st t
      commits c low clean = record {
        inv = committed-Inv sid level v c enough low offered clean;
        settled = committed-Settled sid level v c enough low busy s;
        grows = committed-Grows sid level v c enough low;
        held = inl (rw c.marks_self (omega arith));
      }
