-- ===== src/Prune/Imports/Needed.antt =====
-- src/prune.rs: `needed_providers` lists exactly what kept symbols refer to in other files.
use pbpp.Prelude.{
  ℕ, zero, suc, ◌+◌, ◌<◌, ◌≤◌, ◌≡◌, ◌≢◌, inl, inr, ◌⊎◌, ◌↔◌, ⊎_elim, true, Option, none, some, List,
  [], ◌∷◌, arith, ◌==◌, update, update_self, update-ne, Bool-cases, In,
}
use pbpp.Sema.Symbols.{Sema, Ref, sym_count, refs}
use pbpp.Sema.Symbols.{sym as symbol}
use pbpp.Select.Selection.{Selected, is_kept}
use pbpp.Prune.Imports.{
  Providers, nothing, provider, add_refs, add_symbol, add_symbols, needed_providers,
}

module _ (sema : Sema) where
  -- One of the references goes to file `tf`, which is not `sf`.
  abbrev pub Mentions : ℕ → List Ref → ℕ → Type 0
  Mentions sf [] tf = ⊥
  Mentions sf (r ∷ rs) tf =
      (((symbol sema r.target).file ≡ some tf) × (tf ≢ sf)) ⊎ Mentions sf rs tf

  provider-files :
      (sf tf : ℕ) (file : Option ℕ) (r : Ref) (p : Providers)
      → In tf (provider sf file (symbol sema r.target).wkt_path p).files
        ↔ (In tf p.files ⊎ ((file ≡ some tf) × (tf ≢ sf)))
  unfolding provider
  provider-files sf tf none r p = ground arith
  provider-files sf tf (some f) r p = ground arith

  add_refs-files :
      (sf tf : ℕ) (rs : List Ref) (p : Providers)
      → In tf (add_refs sema sf rs p).files ↔ (In tf p.files ⊎ Mentions sf rs tf)
  unfolding add_refs
  add_refs-files sf tf [] p = ground arith
  add_refs-files sf tf (r ∷ rs) p =
      let first = provider-files sf tf (symbol sema r.target).file r p in
      let rest =
        add_refs-files sf tf rs
          (provider sf (symbol sema r.target).file (symbol sema r.target).wkt_path p) in
      (
        λ m. elim (rest.0 m) [
          | inl before ↦ elim (first.0 before) [ inl old ↦ inl old | inr here ↦ inr (inl here) ]
          | inr later ↦ inr (inr later)
        ],
        λ m. elim m [
          | inl old ↦ rest.1 (inl (first.1 (inl old)))
          | inr s ↦ elim s [
            | inl here ↦ rest.1 (inl (first.1 (inr here)))
            | inr later ↦ rest.1 (inr later)
          ]
        ],
      )

module _ (sema : Sema) (sel : Selected) where
  -- Symbol `i` is a kept one of file `sf` with a reference into file `tf`, which is another.
  abbrev pub Needs : ℕ → ℕ → ℕ → Type 0
  Needs sf tf i =
      ((symbol sema i).file ≡ some sf) × (is_kept sel i ≡ true) × Mentions sema sf (refs sema i) tf

  -- The same with the symbol's file as an argument.
  abbrev NeedsFrom : Option ℕ → ℕ → ℕ → ℕ → Type 0
  NeedsFrom file sf tf i =
      (file ≡ some sf) × (is_kept sel i ≡ true) × Mentions sema sf (refs sema i) tf

  add_symbol-files :
      (sf tf i : ℕ) (file : Option ℕ) (needed : ℕ → Providers)
      → In tf (add_symbol sema sel i file needed sf).files
        ↔ (In tf (needed sf).files ⊎ NeedsFrom file sf tf i)
  unfolding add_symbol
  add_symbol-files sf tf i none needed = ground arith
  add_symbol-files sf tf i (some f) needed = elim (Bool-cases (is_kept sel i)) [
    | inr gone ↦ rw gone (ground arith)
    | inl kept ↦ elim (Bool-cases (f == sf)) [
      | inl same ↦
          let e : f ≡ sf = ground arith in
          let at : update needed f (add_refs sema f (refs sema i) (needed f)) sf
              ≡ add_refs sema sf (refs sema i) (needed sf) =
            rw e (update_self needed sf _) in
          let step = add_refs-files sema sf tf (refs sema i) (needed sf) in
          rw kept (rw at (ground (arith, step, e)))
      | inr other ↦
          let at : update needed f (add_refs sema f (refs sema i) (needed f)) sf ≡ needed sf =
            update-ne needed f sf _ (ground arith) in
          rw kept (rw at (ground arith))
    ]
  ]

  add_symbols-files :
      (sf tf n i : ℕ) (needed : ℕ → Providers)
      → In tf (add_symbols sema sel n i needed sf).files
        ↔ (In tf (needed sf).files ⊎ ((j : ℕ) × (i ≤ j) × (j < i + n) × Needs sf tf j))
  unfolding add_symbols
  add_symbols-files sf tf zero i needed =
      (inl, λ m. ⊎_elim (λ h. h) (λ (j, a, b, c). absurd (omega arith)) m)
  add_symbols-files sf tf (suc n) i needed =
      let first = add_symbol-files sf tf i (symbol sema i).file needed in
      let rest =
        add_symbols-files sf tf n (suc i) (add_symbol sema sel i (symbol sema i).file needed) in
      (
        λ m. elim (rest.0 m) [
          | inl before ↦ elim (first.0 before) [
            | inl old ↦ inl old
            | inr here ↦ inr (i, omega arith, omega arith, here)
          ]
          | inr (j, a, b, c) ↦ inr (j, omega arith, omega arith, c)
        ],
        λ m. elim m [
          | inl old ↦ rest.1 (inl (first.1 (inl old)))
          | inr (j, a, b, c) ↦ elim (Bool-cases (i == j)) [
            | inl same ↦
                let e : j ≡ i = ground arith in
                rest.1 (inl (first.1 (inr (let x : Needs sf tf i = rw (← e) c in x))))
            | inr other ↦ rest.1 (inr (j, ground arith, omega arith, c))
          ]
        ],
      )

  -- A file needs another exactly if one of its kept symbols refers into it.
  pub needed_providers-Needs :
      (sf tf : ℕ)
      → In tf (needed_providers sema sel sf).files
        ↔ ((i : ℕ) × (i < sym_count sema) × Needs sf tf i)
  unfolding needed_providers
  needed_providers-Needs sf tf =
      let all = add_symbols-files sf tf (sym_count sema) 0 (λ _. nothing) in
      (
        λ m. elim (all.0 m) [ inl n ↦ absurd n | inr (i, a, b, c) ↦ (i, omega arith, c) ],
        λ (i, b, c). all.1 (inr (i, omega arith, omega arith, c)),
      )
