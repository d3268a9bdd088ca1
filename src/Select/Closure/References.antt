-- ===== src/Select/Closure/References.antt =====
-- src/select.rs: what the reference checks of `keep` find, and the three ways in which `keep` ends.
use pbpp.Prelude.{
  ℕ, zero, suc, ◌<◌, ◌≡◌, ◌∙◌, sym as flip, subst, ◌⊎◌, refl, inl, inr, true, false, Option, none,
  some, List, [], ◌∷◌, arith, update, Bool-cases, In, ok, err,
}
use pbpp.Span.{Span}
use pbpp.Rules.{Polarity}
use pbpp.Sema.Kind.{carries_refs}
use pbpp.Sema.Symbols.{Sema, Ref, sym, sym_count, refs}
use pbpp.Select.Mark.{Mark, unmarked, at_least, SelectError, conflict, contradiction}
use pbpp.Select.Decide.{Decision}
use pbpp.Select.Closure.{
  State, Check, clear, cascades, refused, excludes, keep_rule, check_refs, check_one, cascade_check,
  conflict_error, span_of_target, chain, put_link, check, commit, keep, keep_checked,
}
use pbpp.Select.Closure.Reached.{IsClean}

module _ (sema : Sema) (decision : ℕ → Decision) where
  -- A reference whose target a `-!` rule excludes.
  abbrev pub HasCascade : ℕ → Type 0
  HasCascade i =
      (carries_refs (sym sema i).kind ≡ true)
      × ((r : Ref) × In r (refs sema i)
          × ((d : ℕ) × (decision r.target ≡ some (d, Polarity.drop_cascade))))

  -- The links lead from a symbol to its introducer, and so on to the end.
  abbrev pub IsPath : ℕ → List (ℕ × ℕ) → ℕ → Type 0
  IsPath from [] end = from ≡ end
  IsPath from ((last, c) ∷ links) end = (last ≡ from) × IsPath c links end

  -- A conflict whose chain starts at the referencing symbol, with the rule that keeps its end.
  abbrev pub IsConflict : ℕ → ℕ → ℕ → SelectError → Type 0
  IsConflict sid t x e =
      (span : Span) × (links : List (ℕ × ℕ)) × (end : ℕ) × IsPath sid links end
      × (e ≡ conflict sid t span links (keep_rule (decision end)) x)

  -- The error of one reference, to the target `t` with decision `d`: a `-` rule excludes the target,
  -- or a `-!` rule does, and a later rule keeps the referencing symbol.
  abbrev pub Refuses : ℕ → ℕ → Decision → SelectError → Type 0
  Refuses sid t d e =
      ((x : ℕ) × (d ≡ some (x, Polarity.drop)) × IsConflict sid t x e)
      ⊎ ((x : ℕ) × (d ≡ some (x, Polarity.drop_cascade))
          × ((k : ℕ) × (decision sid ≡ some (k, Polarity.keep))
              × (x < k)
              × (e ≡ contradiction sid t k x)))

  -- The error names the symbol and one of its references.
  abbrev pub IsRefusal : ℕ → SelectError → Type 0
  IsRefusal i e =
      (carries_refs (sym sema i).kind ≡ true)
      × ((r : Ref) × In r (refs sema i) × Refuses i r.target (decision r.target) e)

  -- The three ways in which `keep` returns a state.
  pub data Kept (sid : ℕ) (level : Mark) (by : Option ℕ) (st st' : State) : Type 0 where
    already_dropped : st.cascade sid ≡ true → st' ≡ st → Kept sid level by st st'
    already_kept : at_least (st.marks sid) level ≡ true → st' ≡ st → Kept sid level by st st'
    dropped :
        HasCascade sid
        → st'
          ≡ record st { cascade = update st.cascade sid true; marks = update st.marks sid unmarked }
        → Kept sid level by st st'
    committed :
        st.cascade sid ≡ false
        → at_least (st.marks sid) level ≡ false
        → IsClean sema decision sid
        → st' ≡ commit sema decision sid level by st
        → Kept sid level by st st'

  module _ (st : State) (sid : ℕ) (by : Option ℕ) where
    check_one-clear :
        (t : ℕ) (d : Decision) (next : Check)
        → check_one sema decision st sid by t d next ≡ clear
        → (excludes d ≡ false) × (next ≡ clear)
    unfolding check_one
    check_one-clear t (some (d, Polarity.drop_cascade)) next h =
        absurd (never (keep_rule (decision sid)) h)
      where
        never : (k : Option ℕ) → cascade_check sid t d k ≡ clear → ⊥
        never none h = cc
        never (some k) h = ground arith
    check_one-clear t (some (d, Polarity.drop)) next h = cc
    check_one-clear t (some (d, Polarity.keep)) next h = (refl, h)
    check_one-clear t none next h = (refl, h)

    check_one-cascades :
        (t : ℕ) (d : Decision) (next : Check)
        → check_one sema decision st sid by t d next ≡ cascades
        → ((r : ℕ) × (d ≡ some (r, Polarity.drop_cascade))) ⊎ (next ≡ cascades)
    unfolding check_one
    check_one-cascades t (some (d, Polarity.drop_cascade)) next h = inl (d, refl)
    check_one-cascades t (some (d, Polarity.drop)) next h = cc
    check_one-cascades t (some (d, Polarity.keep)) next h = inr h
    check_one-cascades t none next h = inr h

    keep_rule-some : (d : Decision) (k : ℕ) → keep_rule d ≡ some k → d ≡ some (k, Polarity.keep)
    keep_rule-some (some (r, Polarity.keep)) k h = ground arith
    keep_rule-some (some (r, Polarity.drop)) k h = cc
    keep_rule-some (some (r, Polarity.drop_cascade)) k h = cc
    keep_rule-some none k h = cc

    chain-IsPath :
        (f : ℕ) (introduced : ℕ → Option ℕ) (last : ℕ) (cur : Option ℕ) (links : List (ℕ × ℕ))
        (end : ℕ)
        → chain f introduced last cur ≡ some (links, end)
        → IsPath last links end
    unfolding chain
    chain-IsPath f introduced last none links end h =
        let same : [] ≡ links = cc in
        let at : last ≡ end = cc in subst (λ (ls : List (ℕ × ℕ)). IsPath last ls end) same at
    chain-IsPath zero introduced last (some c) links end h = cc
    chain-IsPath (suc f) introduced last (some c) links end h =
        let ((rest, stop), found, same, at) =
          put_link-some (chain f introduced c (introduced c)) h in
        subst (λ (ls : List (ℕ × ℕ)). IsPath last ls end) same
          (
            refl,
            subst (λ (x : ℕ). IsPath c rest x) at
                (chain-IsPath f introduced c (introduced c) rest stop found),
          )
      where
        put_link-some :
            (o : Option (List (ℕ × ℕ) × ℕ))
            → put_link last c o ≡ some (links, end)
            → (r : List (ℕ × ℕ) × ℕ) × (o ≡ some r) × ((last, c) ∷ r.0 ≡ links) × (r.1 ≡ end)
        put_link-some none e = cc
        put_link-some (some (ls, x)) e = ((ls, x), refl, cc, cc)

    -- The introducers from `by` on can be followed to an end.
    abbrev pub IsFollowed : Type 0
    IsFollowed =
        (r : List (ℕ × ℕ) × ℕ) × (chain (suc (sym_count sema)) st.introduced sid by ≡ some r)

    conflict_error-IsConflict :
        (t x : ℕ) {e : SelectError}
        → IsFollowed
        → refused (conflict_error sema decision st sid t x by) ≡ refused e
        → IsConflict sid t x e
    unfolding conflict_error
    conflict_error-IsConflict t x {e} ((links, end), done) h =
        let same : conflict_error sema decision st sid t x by ≡ e = cc in
        (
          span_of_target t (sym sema sid).name_span (refs sema sid),
          links,
          end,
          chain-IsPath (suc (sym_count sema)) st.introduced sid by links end done,
          flip same ∙ rw done,
        )

    check_one-refused :
        (t : ℕ) (d : Decision) (next : Check) (e : SelectError)
        → IsFollowed
        → check_one sema decision st sid by t d next ≡ refused e
        → Refuses sid t d e ⊎ (next ≡ refused e)
    unfolding check_one
    check_one-refused t (some (x, Polarity.drop_cascade)) next e way h =
        inl (inr (x, refl, later (keep_rule (decision sid)) refl h))
      where
        later :
            (o : Option ℕ)
            → keep_rule (decision sid) ≡ o
            → cascade_check sid t x o ≡ refused e
            → (k : ℕ) × (decision sid ≡ some (k, Polarity.keep))
              × (x < k)
              × (e ≡ contradiction sid t k x)
        later none same h = cc
        later (some k) same h =
            (k, keep_rule-some (decision sid) k same, ground arith, ground arith)
    check_one-refused t (some (x, Polarity.drop)) next e way h =
        inl (inl (x, refl, conflict_error-IsConflict t x way h))
    check_one-refused t (some (x, Polarity.keep)) next e way h = inr h
    check_one-refused t none next e way h = inr h

    pub check_refs-clear :
        (rs : List Ref)
        → check_refs sema decision st sid by rs ≡ clear
        → (r : Ref) → In r rs
        → excludes (decision r.target) ≡ false
    unfolding check_refs
    check_refs-clear [] h r m = absurd m
    check_refs-clear (q ∷ rs) h r (inl e) =
        rw e (check_one-clear q.target (decision q.target) _ h).0
    check_refs-clear (q ∷ rs) h r (inr m) =
        check_refs-clear rs (check_one-clear q.target (decision q.target) _ h).1 r m

    pub check_refs-cascades :
        (rs : List Ref)
        → check_refs sema decision st sid by rs ≡ cascades
        → (r : Ref) × In r rs × ((d : ℕ) × (decision r.target ≡ some (d, Polarity.drop_cascade)))
    unfolding check_refs
    check_refs-cascades [] h = cc
    check_refs-cascades (q ∷ rs) h = elim (check_one-cascades q.target (decision q.target) _ h) [
      | inl found ↦ (q, inl refl, found)
      | inr later ↦ let (r, m, found) = check_refs-cascades rs later in (r, inr m, found)
    ]

    pub check_refs-refused :
        (rs : List Ref) (e : SelectError)
        → IsFollowed
        → check_refs sema decision st sid by rs ≡ refused e
        → (r : Ref) × In r rs × Refuses sid r.target (decision r.target) e
    unfolding check_refs
    check_refs-refused [] e way h = cc
    check_refs-refused (q ∷ rs) e way h =
        elim (check_one-refused q.target (decision q.target) _ e way h) [
          | inl found ↦ (q, inl refl, found)
          | inr later ↦ let (r, m, found) = check_refs-refused rs e way later in (r, inr m, found)
        ]

  check-clear :
      (st : State) (sid : ℕ) (by : Option ℕ)
      → check sema decision st sid by ≡ clear
      → IsClean sema decision sid
  check-clear st sid by h carries = check_refs-clear st sid by (refs sema sid) (rw carries at h)

  check-cascades :
      (st : State) (sid : ℕ) (by : Option ℕ)
      → check sema decision st sid by ≡ cascades
      → HasCascade sid
  check-cascades st sid by h = elim (Bool-cases (carries_refs (sym sema sid).kind)) [
    | inl carries ↦ (carries, check_refs-cascades st sid by (refs sema sid) (rw carries at h))
    | inr plain ↦ let no : clear ≡ cascades = rw plain at h in cc
  ]

  keep_checked-Kept :
      (sid : ℕ) (level : Mark) (by : Option ℕ) (st st' : State) (c : Check)
      → check sema decision st sid by ≡ c
      → st.cascade sid ≡ false
      → at_least (st.marks sid) level ≡ false
      → keep_checked sema decision c sid level by st ≡ ok st'
      → Kept sid level by st st'
  unfolding keep_checked
  keep_checked-Kept sid level by st st' clear e undropped low h =
      committed undropped low (check-clear st sid by e) cc
  keep_checked-Kept sid level by st st' cascades e undropped low h =
      dropped (check-cascades st sid by e) cc
  keep_checked-Kept sid level by st st' (refused x) e undropped low h = cc

  pub keep-Kept :
      (sid : ℕ) (level : Mark) (by : Option ℕ) (st st' : State)
      → keep sema decision sid level by st ≡ ok st'
      → Kept sid level by st st'
  unfolding keep
  keep-Kept sid level by st st' h = elim (Bool-cases (st.cascade sid)) [
    | inl gone ↦ already_dropped gone (let h' : ok st ≡ ok st' = rw gone at h in cc)
    | inr undropped ↦ elim (Bool-cases (at_least (st.marks sid) level)) [
      | inl high ↦ already_kept high (let h' : ok st ≡ ok st' = rw (undropped, high) at h in cc)
      | inr low ↦
          keep_checked-Kept sid level by st st' _ refl undropped low (rw (undropped, low) at h)
    ]
  ]

  keep_checked-err :
      (sid : ℕ) (level : Mark) (by : Option ℕ) (st : State) (e : SelectError) (c : Check)
      → IsFollowed st sid by
      → check sema decision st sid by ≡ c
      → keep_checked sema decision c sid level by st ≡ err e
      → IsRefusal sid e
  unfolding keep_checked
  keep_checked-err sid level by st e clear way same h = cc
  keep_checked-err sid level by st e cascades way same h = cc
  keep_checked-err sid level by st e (refused x) way same h =
      elim (Bool-cases (carries_refs (sym sema sid).kind)) [
        | inl carries ↦
            let x_is : x ≡ e = cc in
            (
              carries,
              check_refs-refused st sid by (refs sema sid) e way (rw (carries, x_is) at same),
            )
        | inr plain ↦ let clash : clear ≡ refused x = rw plain at same in cc
      ]

  -- An error of `keep` is one of a reference of its symbol.
  pub keep-err :
      (sid : ℕ) (level : Mark) (by : Option ℕ) (st : State) (e : SelectError)
      → IsFollowed st sid by
      → keep sema decision sid level by st ≡ err e
      → IsRefusal sid e
  unfolding keep
  keep-err sid level by st e way h = elim (Bool-cases (st.cascade sid)) [
    | inl gone ↦ let clash : ok st ≡ err e = rw gone at h in cc
    | inr undropped ↦ elim (Bool-cases (at_least (st.marks sid) level)) [
      | inl high ↦ let clash : ok st ≡ err e = rw (undropped, high) at h in cc
      | inr low ↦ keep_checked-err sid level by st e _ way refl (rw (undropped, low) at h)
    ]
  ]
