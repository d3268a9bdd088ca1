-- ===== src/Select/Closure/Errors.antt =====
-- src/select.rs: the errors of the closure are those of references of symbols to be kept.
use pbpp.Prelude.{
  ℕ, zero, suc, ◌+◌, ◌≤◌, ◌<◌, ◌≡◌, refl, inl, inr, Bool, true, false, not, ◌&&◌, Option, none,
  some, List, [], ◌∷◌, arith, Bool-cases, In, ok, err, Result-cases,
}
use pbpp.Sema.Kind.{SymKind, is_def, carries_refs}
use pbpp.Sema.Symbols.{Sema, Ref, sym, sym_count, children, refs, IsWellFormed}
use pbpp.Select.Mark.{required, explicit, SelectError}
use pbpp.Select.Decide.{Decision, is_none}
use pbpp.Select.Closure.{
  State, is_content, content_level, keeps, keep, keep_children, keep_targets, process, process_kind,
  seed,
}
use pbpp.Select.Closure.References.{IsRefusal, IsFollowed, keep-err}
use pbpp.Select.Closure.Introducers.{IsUsed, IsTraced-chain}
use pbpp.Select.Closure.Linked.{IsLinked, IsUsed-some}
use pbpp.Select.Closure.Linked.Keep.{content-Follows, target-Follows, root-Follows}
use pbpp.Select.Closure.Reached.{Offered, selected, content, referenced, Reached}

-- An error that one of the symbols to be kept has caused.
abbrev pub IsCaused : Sema → (ℕ → Decision) → SelectError → Type 0
IsCaused sema decision e = (i : ℕ) × Offered sema decision i × IsRefusal sema decision i e

module _ (sema : Sema) (decision : ℕ → Decision) (wf : IsWellFormed sema) where
  -- The introducers that an error names can be followed to an end.
  way :
      (st : State) (used : ℕ → Bool) (size : ℕ) (sid : ℕ) (by : Option ℕ)
      → IsLinked sema st used size
      → IsUsed used by
      → IsFollowed sema decision st sid by
  way st used size sid by l known =
      IsTraced-chain (sym_count sema) st.introduced used size sid by l.traced known

  keep_children-err :
      (sid : ℕ) (cs : List ℕ) (st : State) (e : SelectError) (used : ℕ → Bool) (size : ℕ)
      → IsLinked sema st used size
      → used sid ≡ true
      → ((c : ℕ) → In c cs → c < sym_count sema)
      → ((c : ℕ) → In c cs → is_content sema decision c ≡ true → Offered sema decision c)
      → keep_children sema decision sid cs st ≡ err e
      → IsCaused sema decision e
  unfolding keep_children
  keep_children-err sid [] st e used size l known bound offered h = cc
  keep_children-err sid (c ∷ cs) st e used size l known bound offered h =
      elim (Bool-cases (is_content sema decision c)) [
        | inr other ↦
            keep_children-err sid cs st e used size l known (λ i m. bound i (inr m))
              (λ i m. offered i (inr m)) (rw other at h)
        | inl this ↦
            elim (Result-cases
              (keep sema decision c (content_level sema decision c) (some sid) st)) [
                | inl (mid, first) ↦
                    let (used2, size2, l2, grow) =
                      content-Follows sema decision wf sid c st mid used size l (bound c (inl refl))
                        known first in
                    keep_children-err sid cs mid e used2 size2 l2 (grow sid known)
                      (λ i m. bound i (inr m)) (λ i m. offered i (inr m)) (rw (this, first) at h)
                | inr (x, fails) ↦
                    let same : err x ≡ err e = rw (this, fails) at h in
                    let x_is : x ≡ e = cc in
                    (
                      c,
                      offered c (inl refl) this,
                      keep-err sema decision c _ (some sid) st e
                          (way st used size c (some sid) l (IsUsed-some used sid known))
                          (rw x_is at fails),
                    )
              ]
      ]

  keep_targets-err :
      (sid : ℕ) (rs : List Ref) (st : State) (e : SelectError) (used : ℕ → Bool) (size : ℕ)
      → IsLinked sema st used size
      → used sid ≡ true
      → ((r : Ref) → In r rs → r.target < sym_count sema)
      → ((r : Ref) → In r rs → Offered sema decision r.target)
      → keep_targets sema decision sid rs st ≡ err e
      → IsCaused sema decision e
  unfolding keep_targets
  keep_targets-err sid [] st e used size l known bound offered h = cc
  keep_targets-err sid (r ∷ rs) st e used size l known bound offered h =
      elim (Result-cases (keep sema decision r.target required (some sid) st)) [
        | inl (mid, first) ↦
            let (used2, size2, l2, grow) =
              target-Follows sema decision wf sid r.target st mid used size l (bound r (inl refl))
                known first in
            keep_targets-err sid rs mid e used2 size2 l2 (grow sid known) (λ i m. bound i (inr m))
              (λ i m. offered i (inr m)) (rw first at h)
        | inr (x, fails) ↦
            let same : err x ≡ err e = rw fails at h in
            let x_is : x ≡ e = cc in
            (
              r.target,
              offered r (inl refl),
              keep-err sema decision r.target required (some sid) st e
                  (way st used size r.target (some sid) l (IsUsed-some used sid known))
                  (rw x_is at fails),
            )
      ]

  process_kind-err :
      (k : SymKind) (sid : ℕ) (st : State) (e : SelectError) (used : ℕ → Bool) (size : ℕ)
      → IsLinked sema st used size
      → used sid ≡ true
      → (sym sema sid).kind ≡ k
      → is_none (sym sema sid).file ≡ false
      → Reached sema decision sid
      → process_kind sema decision k sid st ≡ err e
      → IsCaused sema decision e
  unfolding process_kind is_def carries_refs
  process_kind-err SymKind.message sid st e used size l known k file reached h =
      keep_children-err sid (children sema sid) st e used size l known (wf.child_lt sid)
        (λ c m is. content reached.0 reached.1 file (rw k) m is) h
  process_kind-err SymKind.enum sid st e used size l known k file reached h =
      keep_children-err sid (children sema sid) st e used size l known (wf.child_lt sid)
        (λ c m is. content reached.0 reached.1 file (rw k) m is) h
  process_kind-err SymKind.service sid st e used size l known k file reached h =
      keep_children-err sid (children sema sid) st e used size l known (wf.child_lt sid)
        (λ c m is. content reached.0 reached.1 file (rw k) m is) h
  process_kind-err SymKind.field sid st e used size l known k file reached h =
      keep_targets-err sid (refs sema sid) st e used size l known (wf.target_lt sid)
        (λ r m. referenced r reached.0 reached.1 file (rw k) m refl) h
  process_kind-err SymKind.method sid st e used size l known k file reached h =
      keep_targets-err sid (refs sema sid) st e used size l known (wf.target_lt sid)
        (λ r m. referenced r reached.0 reached.1 file (rw k) m refl) h
  process_kind-err SymKind.enum_value sid st e used size l known k file reached h = cc

  pub process-err :
      (sid : ℕ) (st : State) (e : SelectError) (used : ℕ → Bool) (size : ℕ)
      → IsLinked sema st used size
      → used sid ≡ true
      → Reached sema decision sid
      → process sema decision sid st ≡ err e
      → IsCaused sema decision e
  unfolding process
  process-err sid st e used size l known reached h =
      elim (Bool-cases (is_none (sym sema sid).file)) [
        | inl builtin ↦ let clash : ok st ≡ err e = rw builtin at h in cc
        | inr file ↦
            process_kind-err (sym sema sid).kind sid st e used size l known refl file reached
              (rw file at h)
      ]

  pub seed-err :
      (n i : ℕ) (st : State) (e : SelectError) (used : ℕ → Bool) (size : ℕ)
      → IsLinked sema st used size
      → i + n ≤ sym_count sema
      → seed sema decision n i st ≡ err e
      → IsCaused sema decision e
  unfolding seed
  seed-err zero i st e used size l bound h = cc
  seed-err (suc n) i st e used size l bound h =
      elim (Bool-cases (not (is_none (sym sema i).file) && keeps (decision i))) [
        | inr other ↦ seed-err n (suc i) st e used size l (omega arith) (rw other at h)
        | inl this ↦ elim (Result-cases (keep sema decision i explicit none st)) [
          | inl (mid, first) ↦
              let (used2, size2, l2, grow) =
                root-Follows sema decision wf i st mid used size l (omega arith) first in
              seed-err n (suc i) mid e used2 size2 l2 (omega arith) (rw (this, first) at h)
          | inr (x, fails) ↦
              let same : err x ≡ err e = rw (this, fails) at h in
              let x_is : x ≡ e = cc in
              (
                i,
                selected (omega arith) (ground arith) (ground arith),
                keep-err sema decision i explicit none st e (way st used size i none l (λ j is. cc))
                    (rw x_is at fails),
              )
        ]
      ]
