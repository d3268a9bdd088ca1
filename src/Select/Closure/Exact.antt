-- ===== src/Select/Closure/Exact.antt =====
-- src/select.rs: the marks are exactly what the rules of `Reached` derive.
use pbpp.Prelude.{ℕ, ◌≤◌, ◌≡◌, ◌↔◌, inl, inr, true, false, arith, ok}
use pbpp.Sema.Symbols.{Sema, IsWellFormed}
use pbpp.Select.Mark.{Mark, required, strength}
use pbpp.Select.Decide.{Decision}
use pbpp.Select.Decide.Inherit.{Encloses, itself, outward}
use pbpp.Select.Closure.{State, close}
use pbpp.Select.Closure.Reached.{Offered, selected, content, referenced, IsClean, Reached}
use pbpp.Select.Closure.References.{HasCascade}
use pbpp.Select.Closure.Invariant.{Held, IsSettled}
use pbpp.Select.Closure.Rounds.{IsClosed, close-IsClosed}

pub clean_or_cascade :
    (sema : Sema) (decision : ℕ → Decision) (i : ℕ)
    → IsClean sema decision i
    → HasCascade sema decision i
    → ⊥
clean_or_cascade sema decision i clean (carries, (r, m, (d, e))) =
    let clash : true ≡ false = rw e at (clean carries r m) in cc

module _ (sema : Sema) (decision : ℕ → Decision) (wf : IsWellFormed sema) where
  module _ (st : State) (c : IsClosed sema decision wf st) where
    full_of_Held :
        (i : ℕ) (level : Mark)
        → IsClean sema decision i
        → 2 ≤ strength level
        → Held st i level
        → 2 ≤ strength (st.marks i)
    full_of_Held i level clean enough (inl marked) = omega arith
    full_of_Held i level clean enough (inr gone) =
        absurd (clean_or_cascade sema decision i clean (c.inv.cascaded i gone).1)

    IsSettled-of_full : (i : ℕ) → 2 ≤ strength (st.marks i) → IsSettled sema decision st i
    IsSettled-of_full i m = elim (c.settled i (c.inv.full i m)) [
      | inl waits ↦ absurd (rw c.empty at waits)
      | inr (inl work) ↦ cc
      | inr (inr done) ↦ done
    ]

    Held-of_Offered : {i : ℕ} → Offered sema decision i → Held st i required
    Held-of_Offered (selected {i} bound file keeps_it) = elim (c.seeds i bound (ground arith)) [
      | inl marked ↦ inl (omega arith)
      | inr gone ↦ inr gone
    ]
    Held-of_Offered (content {p} {c = k} offered clean file def m is) =
        let full = full_of_Held p required clean (omega arith) (Held-of_Offered offered) in
        elim ((IsSettled-of_full p full).contents file def k m is) [
          | inl marked ↦ inl (ground arith)
          | inr gone ↦ inr gone
        ]
    Held-of_Offered (referenced {f} {t} r offered clean file carries m e) =
        let full = full_of_Held f required clean (omega arith) (Held-of_Offered offered) in
        rw e ((IsSettled-of_full f full).targets file carries r m)

    marked_outward :
        {i j : ℕ} → Encloses sema i j → 1 ≤ strength (st.marks j) → 1 ≤ strength (st.marks i)
    marked_outward itself m = m
    marked_outward (outward {s} {p} e enc) m = marked_outward enc (c.inv.up_closed s p e m)

  -- When the closure returns, a symbol is marked required or explicit exactly if the rules of
  -- `Reached` derive it: it is selected, content of a kept definition or referenced by a kept
  -- symbol, and it refers to nothing excluded.
  pub close-Reached :
      (st : State) (i : ℕ)
      → close sema decision ≡ ok st
      → (2 ≤ strength (st.marks i)) ↔ Reached sema decision i
  close-Reached st i h =
      let c = close-IsClosed sema decision wf st h in
      (
        λ m. (c.inv.sound i m, c.inv.clean i (omega arith)),
        λ (offered, clean).
            full_of_Held st c i required clean (omega arith) (Held-of_Offered st c offered),
      )

  -- When the closure returns, a symbol has a mark, container or stronger, exactly if it is a
  -- reached symbol or encloses one.
  pub close-container :
      (st : State) (i : ℕ)
      → close sema decision ≡ ok st
      → (1 ≤ strength (st.marks i)) ↔ ((j : ℕ) × Encloses sema i j × Reached sema decision j)
  close-container st i h =
      let c = close-IsClosed sema decision wf st h in
      (
        λ m.
            let (j, enc, full) = c.inv.sound_container i m in
            (j, enc, (close-Reached st j h).0 full),
        λ (j, enc, reached).
            marked_outward st c enc (omega (arith, (close-Reached st j h).1 reached)),
      )

  -- When the closure returns, the symbols dropped by cascade are exactly the fields and methods
  -- that the selection wants to keep and that refer to a symbol excluded by a `-!` rule.
  pub close-cascade :
      (st : State) (i : ℕ)
      → close sema decision ≡ ok st
      → (st.cascade i ≡ true) ↔ (Offered sema decision i × HasCascade sema decision i)
  close-cascade st i h =
      let c = close-IsClosed sema decision wf st h in
      (
        c.inv.cascaded i,
        λ (offered, bad). elim (Held-of_Offered st c offered) [
          | inl marked ↦ absurd (clean_or_cascade sema decision i (c.inv.clean i (omega arith)) bad)
          | inr gone ↦ gone
        ],
      )
