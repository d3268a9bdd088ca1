-- ===== src/Select/Closure/Linked.antt =====
-- src/select.rs: between any two calls of `keep`, the introducers of symbols can be followed to an
-- end.
pub mod Keep
pub mod Process
use pbpp.Prelude.{
  ℕ, zero, suc, ◌+◌, ◌≤◌, ◌<◌, ◌≡◌, ◌∙◌, ◌⊎◌, refl, sym as flip, ap, inl, inr, Bool, true, false,
  not, ◌&&◌, Option, none, some, List, [], ◌∷◌, ◌++◌, arith, update, ◌==◌, if◌then◌else◌,
  Bool-cases, Option-cases, In, In-append, ok, >>=-eq-ok,
}
use pbpp.Sema.Kind.{SymKind, is_def, carries_refs}
use pbpp.Sema.Symbols.{Sema, Ref, sym, sym_count, children, refs, IsWellFormed}
use pbpp.Select.Mark.{Mark, unmarked, container, required, explicit, strength, at_least, below}
use pbpp.Select.Decide.{Decision, is_none}
use pbpp.Select.Closure.{
  State, is_content, content_level, keeps, set_introduced, raise, commit, keep, keep_children,
  keep_targets, process, process_kind, seed, drain, blank,
}
use pbpp.Select.Closure.References.{
  already_dropped, already_kept, dropped, committed, keep-Kept, HasCascade,
}
use pbpp.Select.Closure.Introducers.{IsTraced, IsUsed, IsTraced-blank, IsTraced-update}

-- `used` has the symbols that are marked or dropped so far. Marked symbols without an introducer
-- are those that a rule selects.
pub record IsLinked (sema : Sema) (st : State) (used : ℕ → Bool) (size : ℕ) : Type 0 where
  pub traced : IsTraced (sym_count sema) st.introduced used size
  pub marked_used : (i : ℕ) → 1 ≤ strength (st.marks i) → used i ≡ true
  pub used_marked : (i : ℕ) → used i ≡ true → (1 ≤ strength (st.marks i)) ⊎ (st.cascade i ≡ true)
  pub roots : (i : ℕ) → st.introduced i ≡ none → 1 ≤ strength (st.marks i) → st.marks i ≡ explicit
  pub dropped_carries : (i : ℕ) → st.cascade i ≡ true → carries_refs (sym sema i).kind ≡ true
  pub queue_used : (i : ℕ) → In i st.queue → used i ≡ true

-- The state is linked, and what was used is used.
abbrev pub Follows : Sema → (ℕ → Bool) → State → Type 0
Follows sema used st =
    (used2 : ℕ → Bool) × (size2 : ℕ) × IsLinked sema st used2 size2
    × ((i : ℕ) → used i ≡ true → used2 i ≡ true)

pub IsLinked-blank : (sema : Sema) → IsLinked sema blank (λ _. false) 0
IsLinked-blank sema = record {
  traced = IsTraced-blank (sym_count sema);
  marked_used = λ i m. absurd (ground arith);
  used_marked = λ i e. cc;
  roots = λ i e m. absurd (ground arith);
  dropped_carries = λ i e. cc;
  queue_used = λ i m. absurd m;
}

pub explicit-at_least : (m : Mark) → at_least explicit m ≡ true
explicit-at_least unmarked = refl
explicit-at_least container = refl
explicit-at_least required = refl
explicit-at_least explicit = refl

pub def_carries : (k : SymKind) → is_def k ≡ true → carries_refs k ≡ true → ⊥
unfolding is_def carries_refs
def_carries SymKind.message d c = cc
def_carries SymKind.enum d c = cc
def_carries SymKind.service d c = cc
def_carries SymKind.field d c = cc
def_carries SymKind.enum_value d c = cc
def_carries SymKind.method d c = cc

set_introduced-none :
    (introduced : ℕ → Option ℕ) (x : ℕ) (by : Option ℕ)
    → introduced x ≡ none
    → set_introduced introduced x by ≡ update introduced x by
set_introduced-none introduced x by e = let root : is_none (introduced x) ≡ true = rw e in rw root

set_introduced-some :
    (introduced : ℕ → Option ℕ) (x j : ℕ) (by : Option ℕ)
    → introduced x ≡ some j
    → set_introduced introduced x by ≡ introduced
set_introduced-some introduced x j by e =
    let linked : is_none (introduced x) ≡ false = rw e in rw linked

pub IsUsed-some : (used : ℕ → Bool) (c : ℕ) → used c ≡ true → IsUsed used (some c)
IsUsed-some used c known j e = let eq : c ≡ j = cc in rw (← eq) known

module _ (sema : Sema) where
  abbrev pub marked : ℕ → Mark → Option ℕ → State → State
  marked x level by st = record st {
    marks = update st.marks x level;
    introduced = set_introduced st.introduced x by;
  }

  marked-new :
      (x : ℕ) (level : Mark) (by : Option ℕ) (st : State) (used : ℕ → Bool) (size : ℕ)
      → IsLinked sema st used size
      → x < sym_count sema
      → used x ≡ false
      → IsUsed used by
      → 1 ≤ strength level
      → (by ≡ none → level ≡ explicit)
      → IsLinked sema (marked x level by st) (update used x true) (suc size)
  marked-new x level by st used size l bound new known enough root = record {
    traced =
        rw (set_introduced-none st.introduced x by no_introducer)
          (IsTraced-update (sym_count sema) st.introduced used size x by l.traced bound new known);
    marked_used = λ i m. elim (Bool-cases (x == i)) [
      | inl same ↦ rw same
      | inr other ↦ rw other (l.marked_used i (rw other at m))
    ];
    used_marked = λ i e. elim (Bool-cases (x == i)) [
      | inl same ↦ inl (rw same enough)
      | inr other ↦ rw other (l.used_marked i (rw other at e))
    ];
    roots = λ i e m.
        let at : update st.introduced x by i ≡ none =
          rw (set_introduced-none st.introduced x by no_introducer) at e in
        elim (Bool-cases (x == i)) [
          | inl same ↦ rw same (root (rw same at at))
          | inr other ↦ rw other (l.roots i (rw other at at) (rw other at m))
        ];
    dropped_carries = l.dropped_carries;
    queue_used = λ i m. elim (Bool-cases (x == i)) [
      | inl same ↦ rw same
      | inr other ↦ rw other (l.queue_used i m)
    ];
  }
    where
      no_introducer : st.introduced x ≡ none
      no_introducer = elim (Option-cases (st.introduced x)) [
        | inl e ↦ e
        | inr (j, e) ↦ let clash : true ≡ false = flip (l.traced.from_used x j e) ∙ new in cc
      ]

  marked-old :
      (x : ℕ) (level : Mark) (by : Option ℕ) (st : State) (used : ℕ → Bool) (size : ℕ)
      → IsLinked sema st used size
      → used x ≡ true
      → st.cascade x ≡ false
      → at_least (st.marks x) level ≡ false
      → IsLinked sema (marked x level by st) used size
  marked-old x level by st used size l old undropped low =
      let is_marked : 1 ≤ strength (st.marks x) = elim (l.used_marked x old) [
        | inl m ↦ m
        | inr gone ↦ let clash : true ≡ false = flip gone ∙ undropped in cc
      ] in
      elim (Option-cases (st.introduced x)) [
        | inl root ↦
            let full = l.roots x root is_marked in
            let clash : true ≡ false = flip (explicit-at_least level) ∙ (rw full at low) in cc
        | inr (j, e) ↦ record {
          traced = rw (set_introduced-some st.introduced x j by e) l.traced;
          marked_used = λ i m. elim (Bool-cases (x == i)) [
            | inl same ↦ let eq : x ≡ i = ground arith in rw (← eq) old
            | inr other ↦ l.marked_used i (rw other at m)
          ];
          used_marked = λ i u. elim (Bool-cases (x == i)) [
            | inl same ↦ inl (rw same (ground arith))
            | inr other ↦ rw other (l.used_marked i u)
          ];
          roots = λ i r m.
              let at : st.introduced i ≡ none =
                rw (set_introduced-some st.introduced x j by e) at r in
              elim (Bool-cases (x == i)) [
                | inl same ↦
                    let eq : x ≡ i = ground arith in
                    let clash : some j ≡ none = flip e ∙ (rw (← eq) at at) in cc
                | inr other ↦ rw other (l.roots i at (rw other at m))
              ];
          dropped_carries = l.dropped_carries;
          queue_used = l.queue_used;
        }
      ]

  pub marked-Follows :
      (x : ℕ) (level : Mark) (by : Option ℕ) (st : State) (used : ℕ → Bool) (size : ℕ)
      → IsLinked sema st used size
      → x < sym_count sema
      → IsUsed used by
      → 1 ≤ strength level
      → (by ≡ none → level ≡ explicit)
      → st.cascade x ≡ false
      → at_least (st.marks x) level ≡ false
      → (f : Follows sema used (marked x level by st)) × (f.0 x ≡ true)
  marked-Follows x level by st used size l bound known enough root undropped low =
      elim (Bool-cases (used x)) [
        | inl old ↦
            ((used, size, marked-old x level by st used size l old undropped low, λ i u. u), old)
        | inr new ↦ (
          (
            update used x true,
            suc size,
            marked-new x level by st used size l bound new known enough root,
            λ i u. elim (Bool-cases (x == i)) [ inl same ↦ rw same | inr other ↦ rw other u ],
          ),
          ground arith,
        )
      ]
