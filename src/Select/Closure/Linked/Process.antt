-- ===== src/Select/Closure/Linked/Process.antt =====
-- src/select.rs: seeding and processing leave a linked state.
use pbpp.Prelude.{
  ℕ, zero, suc, ◌+◌, ◌≤◌, ◌<◌, ◌≡◌, refl, sym as flip, inl, inr, Bool, true, not, ◌&&◌, none, some,
  List, [], ◌∷◌, arith, Bool-cases, In, ok, >>=-eq-ok,
}
use pbpp.Sema.Kind.{SymKind}
use pbpp.Sema.Symbols.{Sema, Ref, sym, sym_count, children, refs, IsWellFormed}
use pbpp.Select.Mark.{required, explicit}
use pbpp.Select.Decide.{Decision, is_none}
use pbpp.Select.Closure.{
  State, is_content, content_level, keeps, keep, keep_children, keep_targets, process, process_kind,
  seed,
}
use pbpp.Select.Closure.Linked.{IsLinked, Follows}
use pbpp.Select.Closure.Linked.Keep.{same-Follows, content-Follows, target-Follows, root-Follows}

module _ (sema : Sema) (decision : ℕ → Decision) (wf : IsWellFormed sema) where
  keep_children-Follows :
      (sid : ℕ) (cs : List ℕ) (st st' : State) (used : ℕ → Bool) (size : ℕ)
      → IsLinked sema st used size
      → ((c : ℕ) → In c cs → c < sym_count sema)
      → used sid ≡ true
      → keep_children sema decision sid cs st ≡ ok st'
      → Follows sema used st'
  unfolding keep_children
  keep_children-Follows sid [] st st' used size l bound known h =
      let e : st ≡ st' = cc in same-Follows sema used size l (flip e)
  keep_children-Follows sid (c ∷ cs) st st' used size l bound known h =
      elim (Bool-cases (is_content sema decision c)) [
        | inr other ↦
            keep_children-Follows sid cs st st' used size l (λ i m. bound i (inr m)) known
              (rw other at h)
        | inl this ↦
            let (mid, first, later) =
              >>=-eq-ok (keep sema decision c (content_level sema decision c) (some sid) st)
                (keep_children sema decision sid cs) (rw this at h) in
            let (used2, size2, l2, grow) =
              content-Follows sema decision wf sid c st mid used size l (bound c (inl refl)) known
                first in
            let (used3, size3, l3, grow3) =
              keep_children-Follows sid cs mid st' used2 size2 l2 (λ i m. bound i (inr m))
                (grow sid known) later in
            (used3, size3, l3, λ i u. grow3 i (grow i u))
      ]

  keep_targets-Follows :
      (sid : ℕ) (rs : List Ref) (st st' : State) (used : ℕ → Bool) (size : ℕ)
      → IsLinked sema st used size
      → ((r : Ref) → In r rs → r.target < sym_count sema)
      → used sid ≡ true
      → keep_targets sema decision sid rs st ≡ ok st'
      → Follows sema used st'
  unfolding keep_targets
  keep_targets-Follows sid [] st st' used size l bound known h =
      let e : st ≡ st' = cc in same-Follows sema used size l (flip e)
  keep_targets-Follows sid (r ∷ rs) st st' used size l bound known h =
      let (mid, first, later) =
        >>=-eq-ok (keep sema decision r.target required (some sid) st)
          (keep_targets sema decision sid rs) h in
      let (used2, size2, l2, grow) =
        target-Follows sema decision wf sid r.target st mid used size l (bound r (inl refl)) known
          first in
      let (used3, size3, l3, grow3) =
        keep_targets-Follows sid rs mid st' used2 size2 l2 (λ i m. bound i (inr m)) (grow sid known)
          later in
      (used3, size3, l3, λ i u. grow3 i (grow i u))

  process_kind-Follows :
      (k : SymKind) (sid : ℕ) (st st' : State) (used : ℕ → Bool) (size : ℕ)
      → IsLinked sema st used size
      → used sid ≡ true
      → process_kind sema decision k sid st ≡ ok st'
      → Follows sema used st'
  unfolding process_kind
  process_kind-Follows SymKind.message sid st st' used size l known h =
      keep_children-Follows sid (children sema sid) st st' used size l (wf.child_lt sid) known h
  process_kind-Follows SymKind.enum sid st st' used size l known h =
      keep_children-Follows sid (children sema sid) st st' used size l (wf.child_lt sid) known h
  process_kind-Follows SymKind.service sid st st' used size l known h =
      keep_children-Follows sid (children sema sid) st st' used size l (wf.child_lt sid) known h
  process_kind-Follows SymKind.field sid st st' used size l known h =
      keep_targets-Follows sid (refs sema sid) st st' used size l (wf.target_lt sid) known h
  process_kind-Follows SymKind.method sid st st' used size l known h =
      keep_targets-Follows sid (refs sema sid) st st' used size l (wf.target_lt sid) known h
  process_kind-Follows SymKind.enum_value sid st st' used size l known h =
      let e : st ≡ st' = cc in same-Follows sema used size l (flip e)

  pub process-Follows :
      (sid : ℕ) (st st' : State) (used : ℕ → Bool) (size : ℕ)
      → IsLinked sema st used size
      → used sid ≡ true
      → process sema decision sid st ≡ ok st'
      → Follows sema used st'
  unfolding process
  process-Follows sid st st' used size l known h = elim (Bool-cases (is_none (sym sema sid).file)) [
    | inl builtin ↦
        let e : ok st ≡ ok st' = rw builtin at h in
        let e' : st ≡ st' = cc in same-Follows sema used size l (flip e')
    | inr file ↦
        process_kind-Follows (sym sema sid).kind sid st st' used size l known (rw file at h)
  ]

  pub seed-Follows :
      (n i : ℕ) (st st' : State) (used : ℕ → Bool) (size : ℕ)
      → IsLinked sema st used size
      → i + n ≤ sym_count sema
      → seed sema decision n i st ≡ ok st'
      → Follows sema used st'
  unfolding seed
  seed-Follows zero i st st' used size l bound h =
      let e : st ≡ st' = cc in same-Follows sema used size l (flip e)
  seed-Follows (suc n) i st st' used size l bound h =
      elim (Bool-cases (not (is_none (sym sema i).file) && keeps (decision i))) [
        | inr other ↦ seed-Follows n (suc i) st st' used size l (omega arith) (rw other at h)
        | inl this ↦
            let (mid, first, rest) =
              >>=-eq-ok (keep sema decision i explicit none st) (seed sema decision n (suc i))
                (rw this at h) in
            let (used2, size2, l2, grow) =
              root-Follows sema decision wf i st mid used size l (omega arith) first in
            let (used3, size3, l3, grow3) =
              seed-Follows n (suc i) mid st' used2 size2 l2 (omega arith) rest in
            (used3, size3, l3, λ i u. grow3 i (grow i u))
      ]

  pub popped-IsLinked :
      (st : State) (sid : ℕ) (rest : List ℕ) (used : ℕ → Bool) (size : ℕ)
      → st.queue ≡ sid ∷ rest
      → IsLinked sema st used size
      → IsLinked sema (record st { queue = rest }) used size
  popped-IsLinked st sid rest used size e l = record {
    traced = l.traced;
    marked_used = l.marked_used;
    used_marked = l.used_marked;
    roots = l.roots;
    dropped_carries = l.dropped_carries;
    queue_used = λ i m. l.queue_used i (rw e (inr m));
  }
