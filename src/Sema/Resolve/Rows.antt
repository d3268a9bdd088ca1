-- ===== src/Sema/Resolve/Rows.antt =====
-- src/sema.rs: how the two loops of `resolve_refs` lay the resolved references out.
use pbpp.Prelude.{
  ℕ, zero, suc, ◌+◌, ◌-◌, ◌^◌, ◌≤◌, ◌<◌, ◌≡◌, ◌∙◌, refl, sym, ap, subst, inl, inr, Bool-cases, List,
  [], ◌∷◌, ◌++◌, arith, ◌==◌, if◌then◌else◌, leb, get_or, length, append_nil, take-append,
  drop-append, length-append, All, Result, ok, err, >>=-eq-ok,
}
use mathlib.Core.List.{append_assoc}
use pbpp.FileSet.{FileSet}
use pbpp.Sema.Symbols.{Sema, Ref, slice, refs}
use pbpp.Sema.Build.{SemaError, too_large, PendingRef}
use pbpp.Sema.Build.Invariant.{InOrder}
use pbpp.Sema.Imports.{Provided}
use pbpp.Sema.Resolve.{resolve_one, take_refs, resolve_rows}

-- The references that the owner `i` waits for.
unfoldable pub own : ℕ → List PendingRef → List PendingRef
own i [] = []
own i (p ∷ ps) = if p.owner == i then p ∷ own i ps else own i ps

own-above : (i : ℕ) (ps : List PendingRef) → All (λ p. suc i ≤ p.owner) ps → own i ps ≡ []
unfolding own
own-above i [] h = refl
own-above i (p ∷ ps) h = ground (arith, own-above i ps h.1, h.0)

own-taken :
    (i j : ℕ) (taken rest : List PendingRef)
    → All (λ p. p.owner ≡ i) taken
    → i < j
    → own j (taken ++ rest) ≡ own j rest
unfolding own
own-taken i j [] rest h l = refl
own-taken i j (p ∷ ps) rest h l = ground (arith, own-taken i j ps rest h.1 l, h.0)

own-All :
    (i : ℕ) (taken rest : List PendingRef)
    → All (λ p. p.owner ≡ i) taken
    → All (λ p. suc i ≤ p.owner) rest
    → own i (taken ++ rest) ≡ taken
unfolding own
own-All i [] rest h above = own-above i rest above
own-All i (p ∷ ps) rest h above = ground (arith, own-All i ps rest h.1 above, h.0)

All-over :
    (i n : ℕ) (ps : List PendingRef)
    → suc i ≤ n
    → All (λ (q : PendingRef). n ≤ q.owner) ps
    → All (λ p. suc i ≤ p.owner) ps
All-over i n [] l h = tt
All-over i n (p ∷ ps) l h = (omega (arith, h.0), All-over i n ps l h.1)

InOrder-rest : (taken rest : List PendingRef) → InOrder (taken ++ rest) → InOrder rest
InOrder-rest [] rest h = h
InOrder-rest (p ∷ ps) rest h = InOrder-rest ps rest h.1

slice-middle :
    {A : Type 0} (xs ys zs : List A)
    → slice (xs ++ (ys ++ zs)) (length xs) (length xs + length ys) ≡ ys
unfolding slice
slice-middle xs ys zs =
    let size : length xs + length ys - length xs ≡ length ys = omega arith in
    rw size (rw (drop-append xs (ys ++ zs)) (take-append ys zs))

module _ (fileset : FileSet) (visible : List Provided) (sema : Sema) where
  -- One resolved reference for each that waits, in the same order.
  abbrev pub Resolved : List PendingRef → List Ref → Type 0
  Resolved [] [] = Unit
  Resolved (p ∷ ps) (r ∷ rs) =
      (r.span ≡ p.path.span) × (resolve_one fileset visible sema p ≡ ok r.target) × Resolved ps rs
  Resolved _ _ = ⊥

  -- What the inner loop leaves.
  record Taken (i : ℕ) (ps rest : List PendingRef) (refs refs' : List Ref) : Type 0 where
    taken : List PendingRef
    new : List Ref
    split : ps ≡ taken ++ rest
    all_own : All (λ p. p.owner ≡ i) taken
    above : All (λ p. suc i ≤ p.owner) rest
    grown : refs' ≡ refs ++ new
    resolved : Resolved taken new

  take_refs-Taken :
      (i : ℕ) (ps rest : List PendingRef) (refs refs' : List Ref)
      → InOrder ps
      → All (λ p. i ≤ p.owner) ps
      → take_refs fileset visible sema i ps refs ≡ ok (refs', rest)
      → Taken i ps rest refs refs'
  unfolding take_refs
  take_refs-Taken i [] rest refs refs' order least e =
      let nothing : [] ≡ rest = cc in
      let same : refs ≡ refs' = cc in
      record {
        taken = [];
        new = [];
        split = nothing;
        all_own = tt;
        above = subst (All (λ p. suc i ≤ p.owner)) nothing tt;
        grown = sym same ∙ sym (append_nil refs);
        resolved = tt;
      }
  take_refs-Taken i (p ∷ ps) rest refs refs' order least e = elim (Bool-cases (p.owner == i)) [
    | inl mine ↦
        let (t, one, more) =
          >>=-eq-ok (resolve_one fileset visible sema p)
            (λ t.
              take_refs fileset visible sema i ps
                (refs ++ record { span = p.path.span; target = t } ∷ []))
            (rw mine at e) in
        let ref : Ref = record { span = p.path.span; target = t } in
        let tail = take_refs-Taken i ps rest (refs ++ ref ∷ []) refs' order.1 least.1 more in
        record {
          taken = p ∷ tail.taken;
          new = ref ∷ tail.new;
          split = ap (λ (l : List PendingRef). p ∷ l) tail.split;
          all_own = (ground arith, tail.all_own);
          above = tail.above;
          grown = tail.grown ∙ append_assoc refs (ref ∷ []) tail.new;
          resolved = (refl, one, tail.resolved);
        }
    | inr other ↦
        let left : ◌≡◌ {A = Result SemaError (List Ref × List PendingRef)} (ok (refs, p ∷ ps))
            (ok (refs', rest)) =
          rw other at e in
        let nothing : p ∷ ps ≡ rest = cc in
        let same : refs ≡ refs' = cc in
        let over : suc i ≤ p.owner = ground (arith, least.0) in
        record {
          taken = [];
          new = [];
          split = nothing;
          all_own = tt;
          above =
              subst (All (λ p. suc i ≤ p.owner)) nothing (over, All-over i p.owner ps over order.0);
          grown = sym same ∙ sym (append_nil refs);
          resolved = tt;
        }
  ]

  rows-cons :
      (n i : ℕ) (taken rest : List PendingRef) (refs refs' new more : List Ref) (offs : List ℕ)
      → refs' ≡ refs ++ (new ++ more)
      → All (λ p. p.owner ≡ i) taken
      → All (λ p. suc i ≤ p.owner) rest
      → Resolved taken new
      → get_or offs 0 0 ≡ length refs + length new
      → ((t : ℕ)
          → t < n
          → Resolved (own (suc i + t) rest) (slice refs' (get_or offs t 0) (get_or offs (suc t) 0)))
      → (t : ℕ) → t < suc n
      → Resolved
          (own (i + t) (taken ++ rest))
          (slice refs' (get_or (length refs ∷ offs) t 0) (get_or offs t 0))
  rows-cons n i taken rest refs refs' new more offs whole mine above done begins rows zero l =
      let here : i + 0 ≡ i = omega arith in
      rw here (
        rw (own-All i taken rest mine above)
          (rw begins (rw whole (rw (slice-middle refs new more) done))))
  rows-cons n i taken rest refs refs' new more offs whole mine above done begins rows (suc t) l =
      let there : i + suc t ≡ suc i + t = omega arith in
      rw there
        (rw (own-taken i (suc i + t) taken rest mine (omega arith)) (rows t (omega (arith, l))))

  -- The rows behind those written, and where they lie in the arena.
  abbrev pub IsLaid : ℕ → ℕ → List PendingRef → List Ref → List ℕ → List Ref → List ℕ → Type 0
  IsLaid n i ps refs off refs' off' =
      (more : List Ref) × (offs : List ℕ) × (refs' ≡ refs ++ more)
      × (off' ≡ off ++ offs)
      × (length offs ≡ suc n)
      × (get_or offs 0 0 ≡ length refs)
      × ((t : ℕ)
          → t < n
          → Resolved (own (i + t) ps) (slice refs' (get_or offs t 0) (get_or offs (suc t) 0)))

  IsLaid-cons :
      (n i : ℕ) (ps rest : List PendingRef) (refs mid refs' : List Ref) (off off' : List ℕ)
      → Taken i ps rest refs mid
      → IsLaid n (suc i) rest mid (off ++ length refs ∷ []) refs' off'
      → IsLaid (suc n) i ps refs off refs' off'
  IsLaid-cons n i ps rest refs mid refs' off off' t
        (more, offs, grown, grown_off, size, begins, rows) =
      let whole : refs' ≡ refs ++ (t.new ++ more) =
        grown ∙ ap (λ (m : List Ref). m ++ more) t.grown ∙ append_assoc refs t.new more in
      let ends : get_or offs 0 0 ≡ length refs + length t.new =
        begins ∙ ap length t.grown ∙ length-append refs t.new in
      (
        t.new ++ more,
        length refs ∷ offs,
        whole,
        grown_off ∙ append_assoc off (length refs ∷ []) offs,
        omega (arith, size),
        refl,
        subst
            (λ (q : List PendingRef).
              (u : ℕ)
              → u < suc n
              → Resolved (own (i + u) q)
                  (slice refs' (get_or (length refs ∷ offs) u 0) (get_or offs u 0)))
            (sym t.split)
            (rows-cons n i t.taken rest refs refs' t.new more offs whole t.all_own t.above
              t.resolved ends rows),
      )

  pub resolve_rows-IsLaid :
      (n i : ℕ) (ps : List PendingRef) (refs refs' : List Ref) (off off' : List ℕ)
      → InOrder ps
      → All (λ p. i ≤ p.owner) ps
      → resolve_rows fileset visible sema n i ps refs off ≡ ok (refs', off')
      → IsLaid n i ps refs off refs' off'
  unfolding resolve_rows
  resolve_rows-IsLaid zero i ps refs refs' off off' order least e =
      let same : refs ≡ refs' = cc in
      let same_off : off ++ length refs ∷ [] ≡ off' = cc in
      (
        [],
        length refs ∷ [],
        sym same ∙ sym (append_nil refs),
        sym same_off,
        refl,
        refl,
        λ t l. absurd (omega arith),
      )
  resolve_rows-IsLaid (suc n) i ps refs refs' off off' order least e =
      elim (Bool-cases (leb (2 ^ 32) (length refs))) [
        | inl over ↦
            let clash : ◌≡◌ {A = Result SemaError (List Ref × List ℕ)} (err too_large)
                (ok (refs', off')) =
              rw over at e in
            cc
        | inr fits ↦
            let ((mid, rest), one, next) =
              >>=-eq-ok (take_refs fileset visible sema i ps refs)
                (λ (r, q).
                  resolve_rows fileset visible sema n (suc i) q r (off ++ length refs ∷ []))
                (rw fits at e) in
            let t = take_refs-Taken i ps rest refs mid order least one in
            IsLaid-cons n i ps rest refs mid refs' off off' t (
              resolve_rows-IsLaid n (suc i) rest mid refs' (off ++ length refs ∷ []) off'
                (InOrder-rest t.taken rest (subst InOrder t.split order)) t.above next)
      ]
