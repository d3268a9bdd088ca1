-- ===== src/Select/Closure/Process.antt =====
-- src/select.rs: `process` preserves the invariant and settles its symbol.
use pbpp.Prelude.{
  ℕ, ◌≤◌, ◌≡◌, refl, inl, inr, true, false, Option, none, some, List, [], ◌∷◌, arith, Bool-cases,
  In, ok, >>=-eq-ok,
}
use pbpp.Sema.Kind.{SymKind, is_def, carries_refs}
use pbpp.Sema.Symbols.{Sema, Ref, sym, children, refs, IsWellFormed}
use pbpp.Select.Mark.{required, strength}
use pbpp.Select.Decide.{Decision, is_none}
use pbpp.Select.Closure.{
  State, is_content, content_level, keep, keep_children, keep_targets, process, process_kind,
}
use pbpp.Select.Closure.Reached.{Offered, content, referenced, Reached}
use pbpp.Select.Closure.Invariant.{Held, IsSettled, Inv, Settled, Grows, Grows-refl, Grows-trans}
use pbpp.Select.Closure.Keep.{keep-IsKept, def-carries_refs}

module _ (sema : Sema) (decision : ℕ → Decision) (wf : IsWellFormed sema) where
  -- The invariant with the progress made, between the calls of `keep` of one round.
  pub record IsFine (busy : Option ℕ) (st st' : State) : Type 0 where
    pub inv : Inv sema decision st'
    pub settled : Settled sema decision busy st'
    pub grows : Grows sema decision st st'

  content_level_enough : (c : ℕ) → 2 ≤ strength (content_level sema decision c)
  content_level_enough c = ground arith

  pub keep_children_lem :
      (sid : ℕ) (cs : List ℕ) (st st' : State)
      → ((c : ℕ) → In c cs → is_content sema decision c ≡ true → Offered sema decision c)
      → Inv sema decision st
      → Settled sema decision (some sid) st
      → keep_children sema decision sid cs st ≡ ok st'
      → IsFine (some sid) st st'
        × ((c : ℕ)
            → In c cs
            → is_content sema decision c ≡ true
            → Held st' c (content_level sema decision c))
  unfolding keep_children
  keep_children_lem sid [] st st' offered v s h =
      let e : st ≡ st' = cc in
      rw (← e)
        (record { inv = v; settled = s; grows = Grows-refl sema decision st }, λ c m. absurd m)
  keep_children_lem sid (c ∷ cs) st st' offered v s h =
      elim (Bool-cases (is_content sema decision c)) [
        | inr other ↦
            let (fine, held) =
              keep_children_lem sid cs st st' (λ i m. offered i (inr m)) v s (rw other at h) in
            (
              fine,
              λ i m is. elim m [
                | inl e ↦ let clash : is_content sema decision c ≡ true = rw e at is in cc
                | inr m' ↦ held i m' is
              ],
            )
        | inl this ↦
            let (mid, first, later) =
              >>=-eq-ok (keep sema decision c (content_level sema decision c) (some sid) st)
                (keep_children sema decision sid cs) (rw this at h) in
            let k =
              keep-IsKept sema decision wf (some sid) c (content_level sema decision c) (some sid)
                st mid (content_level_enough c) (offered c (inl refl) this) v s first in
            let (fine, held) =
              keep_children_lem sid cs mid st' (λ i m. offered i (inr m)) k.inv k.settled later in
            (
              record {
                inv = fine.inv;
                settled = fine.settled;
                grows = Grows-trans sema decision k.grows fine.grows;
              },
              λ i m is. elim m [
                | inl e ↦ rw e (fine.grows.held c _ k.held)
                | inr m' ↦ held i m' is
              ],
            )
      ]

  pub keep_targets_lem :
      (sid : ℕ) (rs : List Ref) (st st' : State)
      → ((r : Ref) → In r rs → Offered sema decision r.target)
      → Inv sema decision st
      → Settled sema decision (some sid) st
      → keep_targets sema decision sid rs st ≡ ok st'
      → IsFine (some sid) st st' × ((r : Ref) → In r rs → Held st' r.target required)
  unfolding keep_targets
  keep_targets_lem sid [] st st' offered v s h =
      let e : st ≡ st' = cc in
      rw (← e)
        (record { inv = v; settled = s; grows = Grows-refl sema decision st }, λ c m. absurd m)
  keep_targets_lem sid (r ∷ rs) st st' offered v s h =
      let (mid, first, later) =
        >>=-eq-ok (keep sema decision r.target required (some sid) st)
          (keep_targets sema decision sid rs) h in
      let k =
        keep-IsKept sema decision wf (some sid) r.target required (some sid) st mid (omega arith)
          (offered r (inl refl)) v s first in
      let (fine, held) =
        keep_targets_lem sid rs mid st' (λ i m. offered i (inr m)) k.inv k.settled later in
      (
        record {
          inv = fine.inv;
          settled = fine.settled;
          grows = Grows-trans sema decision k.grows fine.grows;
        },
        λ i m. elim m [
          | inl e ↦ rw e (fine.grows.held r.target required k.held)
          | inr m' ↦ held i m'
        ],
      )

  settle :
      (sid : ℕ) (st : State)
      → Settled sema decision (some sid) st
      → IsSettled sema decision st sid
      → Settled sema decision none st
  settle sid st s done i p = elim (s i p) [
    | inl waits ↦ inl waits
    | inr (inl e) ↦ let eq : sid ≡ i = cc in inr (inr (rw (← eq) done))
    | inr (inr other) ↦ inr (inr other)
  ]

  module _ (sid : ℕ) (st st' : State) (reached : Reached sema decision sid)
      (v : Inv sema decision st) (s : Settled sema decision (some sid) st)
      (file : is_none (sym sema sid).file ≡ false) where
    definition_lem :
        is_def (sym sema sid).kind ≡ true
        → keep_children sema decision sid (children sema sid) st ≡ ok st'
        → IsFine none st st'
    definition_lem def h =
        let (fine, held) =
          keep_children_lem sid (children sema sid) st st'
            (λ c m is. content reached.0 reached.1 file def m is) v s h in
        record {
          inv = fine.inv;
          settled = settle sid st' fine.settled (record {
            contents = λ _ _ c m is. held c m is;
            targets = λ _ carries r m. absurd (def-carries_refs (sym sema sid).kind def carries);
          });
          grows = fine.grows;
        }

    reference_lem :
        carries_refs (sym sema sid).kind ≡ true
        → keep_targets sema decision sid (refs sema sid) st ≡ ok st'
        → IsFine none st st'
    reference_lem carries h =
        let (fine, held) =
          keep_targets_lem sid (refs sema sid) st st'
            (λ r m. referenced r reached.0 reached.1 file carries m refl) v s h in
        record {
          inv = fine.inv;
          settled = settle sid st' fine.settled (record {
            contents = λ _ def c m is. absurd (def-carries_refs (sym sema sid).kind def carries);
            targets = λ _ _ r m. held r m;
          });
          grows = fine.grows;
        }

    value_lem :
        is_def (sym sema sid).kind ≡ false
        → carries_refs (sym sema sid).kind ≡ false
        → st ≡ st'
        → IsFine none st st'
    value_lem plain free e = rw (← e) (record {
      inv = v;
      settled =
          settle sid st s (record { contents = λ _ def c m is. cc; targets = λ _ carries r m. cc });
      grows = Grows-refl sema decision st;
    })

    process_kind_lem :
        (k : SymKind)
        → (sym sema sid).kind ≡ k
        → process_kind sema decision k sid st ≡ ok st'
        → IsFine none st st'
    unfolding process_kind is_def carries_refs
    process_kind_lem SymKind.message e h = definition_lem (rw e) h
    process_kind_lem SymKind.enum e h = definition_lem (rw e) h
    process_kind_lem SymKind.service e h = definition_lem (rw e) h
    process_kind_lem SymKind.field e h = reference_lem (rw e) h
    process_kind_lem SymKind.method e h = reference_lem (rw e) h
    process_kind_lem SymKind.enum_value e h = value_lem (rw e) (rw e) cc

  -- Processing a symbol that is to be kept settles it and preserves the invariant.
  pub process_lem :
      (sid : ℕ) (st st' : State)
      → Reached sema decision sid
      → Inv sema decision st
      → Settled sema decision (some sid) st
      → process sema decision sid st ≡ ok st'
      → IsFine none st st'
  unfolding process
  process_lem sid st st' reached v s h = elim (Bool-cases (is_none (sym sema sid).file)) [
    | inl builtin ↦
        let e : ok st ≡ ok st' = rw builtin at h in
        let e' : st ≡ st' = cc in
        rw (← e') (record {
          inv = v;
          settled =
              settle sid st s
                (record { contents = λ file def c m is. cc; targets = λ file carries r m. cc });
          grows = Grows-refl sema decision st;
        })
    | inr file ↦
        process_kind_lem sid st st' reached v s file (sym sema sid).kind refl (rw file at h)
  ]
