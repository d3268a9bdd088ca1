-- ===== src/Select/Closure/Linked/Keep.antt =====
-- src/select.rs: one call of `keep` leaves a linked state.
use pbpp.Prelude.{
  ℕ, zero, suc, ◌≤◌, ◌<◌, ◌≡◌, refl, inl, inr, Bool, true, false, not, ◌&&◌, Option, none, some, [],
  ◌∷◌, ◌++◌, arith, update, ◌==◌, Bool-cases, In-append, ok,
}
use pbpp.Sema.Kind.{carries_refs}
use pbpp.Sema.Symbols.{Sema, sym, sym_count, IsWellFormed}
use pbpp.Select.Mark.{Mark, unmarked, container, required, explicit, strength, at_least, below}
use pbpp.Select.Decide.{Decision}
use pbpp.Select.Closure.{State, content_level, raise, commit, keep}
use pbpp.Select.Closure.References.{already_dropped, already_kept, dropped, committed, keep-Kept}
use pbpp.Select.Closure.Introducers.{IsUsed}
use pbpp.Select.Closure.Linked.{IsLinked, Follows, IsUsed-some, def_carries, marked, marked-Follows}

module _ (sema : Sema) where
  pub same-Follows :
      (used : ℕ → Bool) (size : ℕ) {st st' : State}
      → IsLinked sema st used size
      → st' ≡ st
      → Follows sema used st'
  same-Follows used size l same = (used, size, rw same l, λ i u. u)

  dropped-Follows :
      (sid : ℕ) (st : State) (used : ℕ → Bool) (size : ℕ)
      → IsLinked sema st used size
      → carries_refs (sym sema sid).kind ≡ true
      → Follows sema used
          (record st { cascade = update st.cascade sid true; marks = update st.marks sid unmarked })
  dropped-Follows sid st used size l carries = (
    used,
    size,
    record {
      traced = l.traced;
      marked_used = λ i m. elim (Bool-cases (sid == i)) [
        | inl same ↦ let low : 1 ≤ strength unmarked = rw same at m in absurd (omega (arith, low))
        | inr other ↦ l.marked_used i (rw other at m)
      ];
      used_marked = λ i u. elim (Bool-cases (sid == i)) [
        | inl same ↦ inr (rw same)
        | inr other ↦ rw other (l.used_marked i u)
      ];
      roots = λ i e m. elim (Bool-cases (sid == i)) [
        | inl same ↦ let low : 1 ≤ strength unmarked = rw same at m in absurd (omega (arith, low))
        | inr other ↦ rw other (l.roots i e (rw other at m))
      ];
      dropped_carries = λ i e. elim (Bool-cases (sid == i)) [
        | inl same ↦ let eq : sid ≡ i = ground arith in rw (← eq) carries
        | inr other ↦ l.dropped_carries i (rw other at e)
      ];
      queue_used = l.queue_used;
    },
    λ i u. u,
  )

  module _ (decision : ℕ → Decision) (wf : IsWellFormed sema) where
    raise-Follows :
        (f c : ℕ) (cur : Option ℕ) (st : State) (used : ℕ → Bool) (size : ℕ)
        → (sym sema c).parent ≡ cur
        → c < sym_count sema
        → used c ≡ true
        → IsLinked sema st used size
        → Follows sema used (raise sema decision f c cur st)
    unfolding raise
    raise-Follows f c none st used size e bound known l = (used, size, l, λ i u. u)
    raise-Follows zero c (some p) st used size e bound known l = (used, size, l, λ i u. u)
    raise-Follows (suc f) c (some p) st used size e bound known l =
        elim (Bool-cases (at_least (st.marks p) container)) [
          | inl high ↦ rw high (used, size, l, λ i u. u)
          | inr low ↦
              let undropped : st.cascade p ≡ false = elim (Bool-cases (st.cascade p)) [
                | inr fine ↦ fine
                | inl gone ↦ absurd (
                    def_carries (sym sema p).kind (wf.parent_is_def c p e)
                      (l.dropped_carries p gone))
              ] in
              let ((used2, size2, l2, grow), has) =
                marked-Follows sema p container (some c) st used size l
                  (omega (arith, wf.parent_lt c p e, bound)) (IsUsed-some used c known)
                  (omega arith) (λ no_one. cc) undropped low in
              let (used3, size3, l3, grow3) =
                raise-Follows f p (sym sema p).parent (marked sema p container (some c) st) used2
                  size2 refl (omega (arith, wf.parent_lt c p e, bound)) has l2 in
              rw low (used3, size3, l3, λ i u. grow3 i (grow i u))
        ]

    queued-IsLinked :
        (sid : ℕ) (st : State) (processed : ℕ → Bool) (used : ℕ → Bool) (size : ℕ)
        → used sid ≡ true
        → IsLinked sema st used size
        → IsLinked sema
            (record st { processed = processed; queue = st.queue ++ sid ∷ [] })
            used
            size
    queued-IsLinked sid st processed used size known l = record {
      traced = l.traced;
      marked_used = l.marked_used;
      used_marked = l.used_marked;
      roots = l.roots;
      dropped_carries = l.dropped_carries;
      queue_used = λ i m. elim ((In-append i st.queue (sid ∷ [])).0 m) [
        | inl old ↦ l.queue_used i old
        | inr (inl e) ↦ rw e known
        | inr (inr none_left) ↦ absurd none_left
      ];
    }

    commit-Follows :
        (sid : ℕ) (level : Mark) (by : Option ℕ) (st : State) (used : ℕ → Bool) (size : ℕ)
        → IsLinked sema st used size
        → sid < sym_count sema
        → IsUsed used by
        → 1 ≤ strength level
        → (by ≡ none → level ≡ explicit)
        → st.cascade sid ≡ false
        → at_least (st.marks sid) level ≡ false
        → Follows sema used (commit sema decision sid level by st)
    unfolding commit
    commit-Follows sid level by st used size l bound known enough root undropped low =
        let ((used2, size2, l2, grow), has) =
          marked-Follows sema sid level by st used size l bound known enough root undropped low in
        let raised =
          raise sema decision (suc sid) sid (sym sema sid).parent (marked sema sid level by st) in
        let (used3, size3, l3, grow3) =
          raise-Follows (suc sid) sid (sym sema sid).parent (marked sema sid level by st) used2
            size2 refl bound has l2 in
        elim (Bool-cases (below (st.marks sid) required && not (raised.processed sid))) [
          | inr plain ↦ rw plain (used3, size3, l3, λ i u. grow3 i (grow i u))
          | inl waits ↦ rw waits (
            used3,
            size3,
            queued-IsLinked sid raised (update raised.processed sid true) used3 size3
                (grow3 sid has) l3,
            λ i u. grow3 i (grow i u),
          )
        ]

    pub keep-Follows :
        (sid : ℕ) (level : Mark) (by : Option ℕ) (st st' : State) (used : ℕ → Bool) (size : ℕ)
        → IsLinked sema st used size
        → sid < sym_count sema
        → IsUsed used by
        → 1 ≤ strength level
        → (by ≡ none → level ≡ explicit)
        → keep sema decision sid level by st ≡ ok st'
        → Follows sema used st'
    keep-Follows sid level by st st' used size l bound known enough root h =
        elim (keep-Kept sema decision sid level by st st' h) [
          | already_dropped gone e ↦ same-Follows used size l e
          | already_kept high e ↦ same-Follows used size l e
          | dropped bad e ↦ rw e (dropped-Follows sid st used size l bad.0)
          | committed undropped low clean e ↦
              rw e
                (commit-Follows sid level by st used size l bound known enough root undropped low)
        ]

    -- The three calls of `keep`: of a symbol's content, of a target, and of a selected symbol.
    pub content-Follows :
        (sid c : ℕ) (st st' : State) (used : ℕ → Bool) (size : ℕ)
        → IsLinked sema st used size
        → c < sym_count sema
        → used sid ≡ true
        → keep sema decision c (content_level sema decision c) (some sid) st ≡ ok st'
        → Follows sema used st'
    content-Follows sid c st st' used size l bound known h =
        keep-Follows c (content_level sema decision c) (some sid) st st' used size l bound
          (IsUsed-some used sid known) (ground arith) (λ no_one. cc) h

    pub target-Follows :
        (sid t : ℕ) (st st' : State) (used : ℕ → Bool) (size : ℕ)
        → IsLinked sema st used size
        → t < sym_count sema
        → used sid ≡ true
        → keep sema decision t required (some sid) st ≡ ok st'
        → Follows sema used st'
    target-Follows sid t st st' used size l bound known h =
        keep-Follows t required (some sid) st st' used size l bound (IsUsed-some used sid known)
          (omega arith) (λ no_one. cc) h

    pub root-Follows :
        (i : ℕ) (st st' : State) (used : ℕ → Bool) (size : ℕ)
        → IsLinked sema st used size
        → i < sym_count sema
        → keep sema decision i explicit none st ≡ ok st'
        → Follows sema used st'
    root-Follows i st st' used size l bound h =
        keep-Follows i explicit none st st' used size l bound (λ j e. cc) (omega arith) (λ e. refl)
          h
