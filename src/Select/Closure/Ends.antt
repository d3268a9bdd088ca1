-- ===== src/Select/Closure/Ends.antt =====
-- src/select.rs: the queue's loop ends, and its errors are those of references of kept symbols.
use pbpp.Prelude.{
  ℕ, zero, suc, ◌+◌, ◌≤◌, ◌<◌, ◌≡◌, ◌∙◌, ◌⊎◌, refl, ap, inl, inr, Bool, false, not, ◌&&◌, Option,
  none, some, List, [], ◌∷◌, arith, Bool-cases, In, ok, err, >>=-eq-ok, Result-cases, List-cases,
  length, length-append,
}
use pbpp.Sema.Kind.{SymKind}
use pbpp.Sema.Symbols.{Sema, Ref, sym, sym_count, children, refs, IsWellFormed}
use pbpp.Select.Mark.{Mark, required, explicit, SelectError}
use pbpp.Select.Decide.{Decision, is_none}
use pbpp.Select.Closure.{
  State, is_content, content_level, keeps, keep, keep_children, keep_targets, process, process_kind,
  seed, drain, blank, close,
}
use pbpp.Select.Closure.References.{already_dropped, already_kept, dropped, committed, keep-Kept}
use pbpp.Select.Closure.Introducers.{unused, unused-update, unused-blank}
use pbpp.Select.Closure.Linked.{IsLinked, IsLinked-blank}
use pbpp.Select.Closure.Linked.Process.{process-Follows, seed-Follows, popped-IsLinked}
use pbpp.Select.Closure.Commit.{commit-IsQueued}
use pbpp.Select.Closure.Invariant.{Inv, Settled}
use pbpp.Select.Closure.Process.{process_lem}
use pbpp.Select.Closure.Rounds.{seed_lem, popped-Inv, popped-Settled, blank-Inv}
use pbpp.Select.Closure.Errors.{IsCaused, process-err, seed-err}

module _ (sema : Sema) (decision : ℕ → Decision) (wf : IsWellFormed sema) where
  -- The rounds still to come at most.
  abbrev work : State → ℕ
  work st = unused (sym_count sema) st.processed + length st.queue

  keep-work :
      (sid : ℕ) (level : Mark) (by : Option ℕ) (st st' : State)
      → sid < sym_count sema
      → keep sema decision sid level by st ≡ ok st'
      → work st' ≡ work st
  keep-work sid level by st st' bound h = elim (keep-Kept sema decision sid level by st st' h) [
    | already_dropped gone e ↦ rw e
    | already_kept high e ↦ rw e
    | dropped bad e ↦ rw e
    | committed undropped low clean e ↦
        rw e (elim (commit-IsQueued sema decision wf sid level by st) [
          | inl (processed, queue, _) ↦ rw (processed, queue)
          | inr (processed, queue, new) ↦
              rw (processed, queue)
                (omega (
                  arith,
                  length-append st.queue (sid ∷ []),
                  unused-update (sym_count sema) st.processed sid bound new,
                ))
        ])
  ]

  keep_children-work :
      (sid : ℕ) (cs : List ℕ) (st st' : State)
      → ((c : ℕ) → In c cs → c < sym_count sema)
      → keep_children sema decision sid cs st ≡ ok st'
      → work st' ≡ work st
  unfolding keep_children
  keep_children-work sid [] st st' bound h = let e : st ≡ st' = cc in rw (← e)
  keep_children-work sid (c ∷ cs) st st' bound h = elim (Bool-cases (is_content sema decision c)) [
    | inr other ↦ keep_children-work sid cs st st' (λ i m. bound i (inr m)) (rw other at h)
    | inl this ↦
        let (mid, first, later) =
          >>=-eq-ok (keep sema decision c (content_level sema decision c) (some sid) st)
            (keep_children sema decision sid cs) (rw this at h) in
        keep_children-work sid cs mid st' (λ i m. bound i (inr m)) later
        ∙ keep-work c _ (some sid) st mid (bound c (inl refl)) first
  ]

  keep_targets-work :
      (sid : ℕ) (rs : List Ref) (st st' : State)
      → ((r : Ref) → In r rs → r.target < sym_count sema)
      → keep_targets sema decision sid rs st ≡ ok st'
      → work st' ≡ work st
  unfolding keep_targets
  keep_targets-work sid [] st st' bound h = let e : st ≡ st' = cc in rw (← e)
  keep_targets-work sid (r ∷ rs) st st' bound h =
      let (mid, first, later) =
        >>=-eq-ok (keep sema decision r.target required (some sid) st)
          (keep_targets sema decision sid rs) h in
      keep_targets-work sid rs mid st' (λ i m. bound i (inr m)) later
      ∙ keep-work r.target required (some sid) st mid (bound r (inl refl)) first

  process_kind-work :
      (k : SymKind) (sid : ℕ) (st st' : State)
      → process_kind sema decision k sid st ≡ ok st'
      → work st' ≡ work st
  unfolding process_kind
  process_kind-work SymKind.message sid st st' h =
      keep_children-work sid (children sema sid) st st' (wf.child_lt sid) h
  process_kind-work SymKind.enum sid st st' h =
      keep_children-work sid (children sema sid) st st' (wf.child_lt sid) h
  process_kind-work SymKind.service sid st st' h =
      keep_children-work sid (children sema sid) st st' (wf.child_lt sid) h
  process_kind-work SymKind.field sid st st' h =
      keep_targets-work sid (refs sema sid) st st' (wf.target_lt sid) h
  process_kind-work SymKind.method sid st st' h =
      keep_targets-work sid (refs sema sid) st st' (wf.target_lt sid) h
  process_kind-work SymKind.enum_value sid st st' h = let e : st ≡ st' = cc in rw (← e)

  process-work :
      (sid : ℕ) (st st' : State) → process sema decision sid st ≡ ok st' → work st' ≡ work st
  unfolding process
  process-work sid st st' h = elim (Bool-cases (is_none (sym sema sid).file)) [
    | inl builtin ↦ let e : ok st ≡ ok st' = rw builtin at h in let e' : st ≡ st' = cc in rw (← e')
    | inr file ↦ process_kind-work (sym sema sid).kind sid st st' (rw file at h)
  ]

  seed-work :
      (n i : ℕ) (st st' : State)
      → i + n ≤ sym_count sema
      → seed sema decision n i st ≡ ok st'
      → work st' ≡ work st
  unfolding seed
  seed-work zero i st st' bound h = let e : st ≡ st' = cc in rw (← e)
  seed-work (suc n) i st st' bound h =
      elim (Bool-cases (not (is_none (sym sema i).file) && keeps (decision i))) [
        | inr other ↦ seed-work n (suc i) st st' (omega arith) (rw other at h)
        | inl this ↦
            let (mid, first, rest) =
              >>=-eq-ok (keep sema decision i explicit none st) (seed sema decision n (suc i))
                (rw this at h) in
            seed-work n (suc i) mid st' (omega arith) rest
            ∙ keep-work i explicit none st mid (omega arith) first
      ]

  drain-err :
      (f : ℕ) (st : State) (e : SelectError) (used : ℕ → Bool) (size : ℕ)
      → IsLinked sema st used size
      → work st ≤ f
      → Inv sema decision st
      → Settled sema decision none st
      → drain sema decision f st ≡ err e
      → IsCaused sema decision e
  unfolding drain
  drain-err zero st e used size l small v s h = elim (List-cases st.queue) [
    | inl empty ↦ let clash : ok st ≡ err e = rw (empty, drain) at h in cc
    | inr (sid, rest, more) ↦ absurd (omega (arith, ap length more))
  ]
  drain-err (suc f) st e used size l small v s h = elim (List-cases st.queue) [
    | inl empty ↦ let clash : ok st ≡ err e = rw (empty, drain) at h in cc
    | inr (sid, rest, more) ↦
        let reached = v.sound_queue sid (rw more (inl refl)) in
        let round = rw (more, drain) at h in
        let known = l.queue_used sid (rw more (inl refl)) in
        let popped = popped-IsLinked sema decision wf st sid rest used size more l in
        elim (Result-cases (process sema decision sid (record st { queue = rest }))) [
          | inr (x, fails) ↦
              let same : err x ≡ err e = rw fails at round in
              let x_is : x ≡ e = cc in
              process-err sema decision wf sid (record st { queue = rest }) e used size popped known
                reached (rw x_is at fails)
          | inl (mid, first) ↦
              let one =
                process_lem sema decision wf sid (record st { queue = rest }) mid reached
                  (popped-Inv sema decision wf st sid rest more v)
                  (popped-Settled sema decision wf st sid rest more s) first in
              let (used2, size2, l2, grow) =
                process-Follows sema decision wf sid (record st { queue = rest }) mid used size
                  popped known first in
              drain-err f mid e used2 size2 l2
                (omega
                  (arith, ap length more, process-work sid (record st { queue = rest }) mid first))
                one.inv one.settled (rw first at round)
        ]
  ]

  -- The closure returns a state, or an error that a symbol to be kept has caused by one of its
  -- references: an excluded target, or a target that an earlier rule cascades away. It never runs
  -- out of rounds.
  pub close-outcome :
      ((st : State) × (close sema decision ≡ ok st))
      ⊎ ((e : SelectError) × (close sema decision ≡ err e) × IsCaused sema decision e)
  unfolding close
  close-outcome = elim (Result-cases (seed sema decision n 0 blank)) [
    | inr (e, fails) ↦ inr (
      e,
      rw fails,
      seed-err sema decision wf n 0 blank e (λ _. false) 0 (IsLinked-blank sema) (omega arith)
          fails,
    )
    | inl (mid, first) ↦
        let (seeded, held) =
          seed_lem sema decision wf n 0 blank mid (omega arith) (blank-Inv sema decision wf)
            (λ i e. cc) first in
        let linked =
          seed-Follows sema decision wf n 0 blank mid (λ _. false) 0 (IsLinked-blank sema)
            (omega arith) first in
        elim (Result-cases (drain sema decision n mid)) [
          | inl (st, done) ↦ inl (st, rw first done)
          | inr (e, fails) ↦ inr (
            e,
            rw first fails,
            drain-err n mid e linked.0 linked.1 linked.2
                (omega (arith, seed-work n 0 blank mid (omega arith) first, unused-blank n))
                seeded.inv seeded.settled fails,
          )
        ]
  ]
    where
      n : ℕ
      n = sym_count sema
