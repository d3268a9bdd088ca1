-- ===== src/Sema/Resolve/Owned.antt =====
-- src/sema.rs: `resolve_refs` gives each symbol the references that waited for it.
use pbpp.Prelude.{
  ℕ, suc, ◌+◌, ◌-◌, ◌≤◌, ◌<◌, ◌≡◌, sym, ap, subst, inl, inr, List, [], ◌∷◌, arith, get_or, take,
  drop, length, All, In, ok, >>=-eq-ok,
}
use pbpp.FileSet.{FileSet}
use pbpp.Sema.Symbols.{Sema, Ref, slice, sym_count, refs}
use pbpp.Sema.Build.{PendingRef, Builder}
use pbpp.Sema.Build.Invariant.{InOrder, get_or-behind}
use pbpp.Sema.Imports.{Provided}
use pbpp.Sema.Resolve.Rows.{own, Resolved, resolve_rows-IsLaid}
use pbpp.Sema.Resolve.{resolve_one, resolve_rows, resolve_refs}

All-any : (ps : List PendingRef) → All (λ p. 0 ≤ p.owner) ps
All-any [] = tt
All-any (p ∷ ps) = (omega arith, All-any ps)

-- The builder that `resolve_refs` answers with, and how its references are laid out.
resolve_refs-laid :
    (fileset : FileSet) (visible : List Provided) (b b' : Builder)
    → InOrder b.pending
    → resolve_refs fileset visible b ≡ ok b'
    → (rs : List Ref) × (off : List ℕ) × (record {
      sema = record b.sema { refs_arena = rs; refs_off = off };
      pending = [];
    }
        ≡ b')
      × (length off ≡ suc (sym_count b.sema))
      × ((i : ℕ)
          → i < sym_count b.sema
          → Resolved fileset visible b.sema
              (own i b.pending)
              (slice rs (get_or off i 0) (get_or off (suc i) 0)))
unfolding resolve_refs
resolve_refs-laid fileset visible b b' order e =
    let ((rs, off), one, last) =
      >>=-eq-ok (resolve_rows fileset visible b.sema (sym_count b.sema) 0 b.pending [] [])
        (λ (r, o).
          ok (record { sema = record b.sema { refs_arena = r; refs_off = o }; pending = [] }))
        e in
    let (more, offs, grown, grown_off, size, begins, rows) =
      resolve_rows-IsLaid fileset visible b.sema (sym_count b.sema) 0 b.pending [] rs [] off order
        (All-any b.pending) one in
    (
      rs,
      off,
      cc,
      rw grown_off size,
      rw grown_off (λ i l. let front : 0 + i ≡ i = omega arith in rw front at (rows i l)),
    )

-- Each symbol of the table has, in the order of the source, the references that waited for it.
pub resolve_refs-own :
    (fileset : FileSet) (visible : List Provided) (b b' : Builder)
    → InOrder b.pending
    → resolve_refs fileset visible b ≡ ok b'
    → (i : ℕ) → i < sym_count b.sema
    → Resolved fileset visible b.sema (own i b.pending) (refs b'.sema i)
unfolding refs
resolve_refs-own fileset visible b b' order e i l =
    let (rs, off, same, size, rows) = resolve_refs-laid fileset visible b b' order e in
    subst (λ (c : Builder). Resolved fileset visible b.sema (own i b.pending) (refs c.sema i)) same
      (rows i l)

-- A number behind the table has no references.
pub resolve_refs-behind :
    (fileset : FileSet) (visible : List Provided) (b b' : Builder)
    → InOrder b.pending
    → resolve_refs fileset visible b ≡ ok b'
    → (i : ℕ) → sym_count b.sema ≤ i
    → refs b'.sema i ≡ []
unfolding refs slice
resolve_refs-behind fileset visible b b' order e i l =
    let (rs, off, same, size, rows) = resolve_refs-laid fileset visible b b' order e in
    let nothing : get_or off (suc i) 0 ≡ 0 = get_or-behind off (suc i) 0 (omega (arith, size)) in
    subst (λ (c : Builder). refs c.sema i ≡ []) same
      (rw nothing (take-none (get_or off i 0) (drop (get_or off i 0) rs)))
  where
    take-none : (a : ℕ) (xs : List Ref) → take (0 - a) xs ≡ []
    take-none a xs = let none_left : 0 - a ≡ 0 = omega arith in rw none_left

-- All but the references stays as it was.
pub resolve_refs-same :
    (fileset : FileSet) (visible : List Provided) (b b' : Builder)
    → InOrder b.pending
    → resolve_refs fileset visible b ≡ ok b'
    → (rs : List Ref) × (off : List ℕ) × (record b.sema { refs_arena = rs; refs_off = off }
        ≡ b'.sema)
resolve_refs-same fileset visible b b' order e =
    let (rs, off, same, size, rows) = resolve_refs-laid fileset visible b b' order e in
    (rs, off, ap (λ (c : Builder). c.sema) same)

-- A resolved reference is one that waited.
pub Resolved-In :
    (fileset : FileSet) (visible : List Provided) (sema : Sema) (ps : List PendingRef)
    (rs : List Ref) (r : Ref)
    → Resolved fileset visible sema ps rs
    → In r rs
    → (p : PendingRef) × (resolve_one fileset visible sema p ≡ ok r.target)
Resolved-In fileset visible sema [] [] r h m = absurd m
Resolved-In fileset visible sema [] (s ∷ rs) r h m = absurd h
Resolved-In fileset visible sema (p ∷ ps) [] r h m = absurd h
Resolved-In fileset visible sema (p ∷ ps) (s ∷ rs) r (same, one, more) m = elim m [
  | inl e ↦ (p, subst (λ (x : Ref). resolve_one fileset visible sema p ≡ ok x.target) (sym e) one)
  | inr later ↦ Resolved-In fileset visible sema ps rs r more later
]
