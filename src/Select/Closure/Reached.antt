-- ===== src/Select/Closure/Reached.antt =====
-- src/select.rs: what the closure is to compute, by rules with no order of traversal in them.
use pbpp.Prelude.{ℕ, ◌<◌, ◌≡◌, true, false, In}
use pbpp.Sema.Kind.{is_def, carries_refs}
use pbpp.Sema.Symbols.{Sema, Ref, sym, sym_count, children, refs}
use pbpp.Select.Decide.{Decision, is_none}
use pbpp.Select.Closure.{excludes, keeps, is_content}

module _ (sema : Sema) (decision : ℕ → Decision) where
  -- No reference of the symbol goes to an excluded one. (Definitions and enum values have none
  -- that count.)
  abbrev pub IsClean : ℕ → Type 0
  IsClean i =
      carries_refs (sym sema i).kind ≡ true
      → (r : Ref) → In r (refs sema i)
      → excludes (decision r.target) ≡ false

  -- The symbols that the selection wants to keep: those that a rule keeps, the content of a kept
  -- definition, and the targets of a kept field or method. What comes from a symbol counts only if
  -- that symbol is clean itself.
  pub data Offered : ℕ → Type 0 where
    selected :
        {i : ℕ}
        → i < sym_count sema
        → is_none (sym sema i).file ≡ false
        → keeps (decision i) ≡ true
        → Offered i
    content :
        {p c : ℕ}
        → Offered p
        → IsClean p
        → is_none (sym sema p).file ≡ false
        → is_def (sym sema p).kind ≡ true
        → In c (children sema p)
        → is_content sema decision c ≡ true
        → Offered c
    referenced :
        {f t : ℕ} (r : Ref)
        → Offered f
        → IsClean f
        → is_none (sym sema f).file ≡ false
        → carries_refs (sym sema f).kind ≡ true
        → In r (refs sema f)
        → t ≡ r.target
        → Offered t

  -- The symbols that are to be kept in full.
  abbrev pub Reached : ℕ → Type 0
  Reached i = Offered i × IsClean i
