-- ===== src/Select/Closure.antt =====
-- src/select.rs: `Closure`, which raises marks until everything that a kept symbol needs is kept.
-- The arrays are functions of the symbol's id; the ids used are in range in a well-formed table.
pub mod Reached
pub mod Raise
pub mod References
pub mod Commit
pub mod Invariant
pub mod Keep
pub mod Process
pub mod Rounds
pub mod Exact
pub mod Ends
pub mod Errors
pub mod Introducers
pub mod Linked
use pbpp.Prelude.{
  ℕ, zero, suc, Bool, true, false, not, ◌&&◌, Option, none, some, List, [], ◌∷◌, ◌++◌, ltb, ◌==◌,
  if◌then◌else◌, update, Result, ok, err, ◌>>=◌,
}
use pbpp.Span.{Span}
use pbpp.Rules.{Polarity}
use pbpp.Sema.Kind.{SymKind, is_def, carries_refs}
use pbpp.Sema.Symbols.{Sema, Ref, sym, sym_count, children, refs}
use pbpp.Select.Mark.{
  Mark, unmarked, container, required, explicit, at_least, below, SelectError, conflict,
  contradiction, out_of_fuel,
}
use pbpp.Select.Decide.{Decision, is_none}

pub record State : Type 0 where
  pub marks : ℕ → Mark
  pub cascade : ℕ → Bool
  pub introduced : ℕ → Option ℕ
  pub queue : List ℕ
  pub processed : ℕ → Bool

-- The decision excludes the symbol, with or without cascade.
abbrev pub excludes : Decision → Bool
excludes (some (r, Polarity.drop)) = true
excludes (some (r, Polarity.drop_cascade)) = true
excludes (some (r, Polarity.keep)) = false
excludes none = false

abbrev pub keeps : Decision → Bool
keeps (some (r, Polarity.keep)) = true
keeps (some (r, Polarity.drop)) = false
keeps (some (r, Polarity.drop_cascade)) = false
keeps none = false

-- The rule of a keep decision.
abbrev pub keep_rule : Decision → Option ℕ
keep_rule (some (r, Polarity.keep)) = some r
keep_rule (some (r, Polarity.drop)) = none
keep_rule (some (r, Polarity.drop_cascade)) = none
keep_rule none = none

-- What the references of a symbol say of keeping it.
pub data Check : Type 0 where
  clear cascades : Check
  refused : SelectError → Check

-- `if let Some((keep_rule, Keep)) = self.decision[i] && keep_rule > drop_rule`.
cascade_check : ℕ → ℕ → ℕ → Option ℕ → Check
cascade_check sid target drop_rule none = cascades
cascade_check sid target drop_rule (some k) =
    if ltb drop_rule k then refused (contradiction sid target k drop_rule) else cascades

abbrev pub set_introduced : (ℕ → Option ℕ) → ℕ → Option ℕ → ℕ → Option ℕ
set_introduced introduced i by =
    if is_none (introduced i) then update introduced i by else introduced

pub span_of_target : ℕ → Span → List Ref → Span
span_of_target target fallback [] = fallback
span_of_target target fallback (r ∷ rs) =
    if r.target == target then r.span else span_of_target target fallback rs

abbrev pub put_link : ℕ → ℕ → Option (List (ℕ × ℕ) × ℕ) → Option (List (ℕ × ℕ) × ℕ)
put_link last c none = none
put_link last c (some (links, end)) = some ((last, c) ∷ links, end)

-- The `while let` loop of `conflict_error`, with fuel: the links of the chain and its end, and
-- nothing if the fuel runs out.
unfoldable pub chain : ℕ → (ℕ → Option ℕ) → ℕ → Option ℕ → Option (List (ℕ × ℕ) × ℕ)
chain f introduced last none = some ([], last)
chain zero introduced last (some c) = none
chain (suc f) introduced last (some c) = put_link last c (chain f introduced c (introduced c))

abbrev pub blank : State
blank = record {
  marks = λ _. unmarked;
  cascade = λ _. false;
  introduced = λ _. none;
  queue = [];
  processed = λ _. false;
}

module _ (sema : Sema) (decision : ℕ → Decision) where
  abbrev conflict_of : ℕ → ℕ → ℕ → Option (List (ℕ × ℕ) × ℕ) → SelectError
  conflict_of from target drop_rule none = out_of_fuel
  conflict_of from target drop_rule (some (links, end)) =
      conflict from target (span_of_target target (sym sema from).name_span (refs sema from)) links
        (keep_rule (decision end)) drop_rule

  -- A chain visits a symbol at most once, so one link more than there are symbols is enough.
  unfoldable pub conflict_error : State → ℕ → ℕ → ℕ → Option ℕ → SelectError
  unfolding span_of_target chain
  conflict_error st from target drop_rule by =
      conflict_of from target drop_rule (chain (suc (sym_count sema)) st.introduced from by)

  check_one : State → ℕ → Option ℕ → ℕ → Decision → Check → Check
  unfolding cascade_check
  check_one st sid by target (some (d, Polarity.drop_cascade)) next =
      cascade_check sid target d (keep_rule (decision sid))
  check_one st sid by target (some (d, Polarity.drop)) next =
      refused (conflict_error st sid target d by)
  check_one st sid by target (some (d, Polarity.keep)) next = next
  check_one st sid by target none next = next

  -- The loop over the references of a field or method.
  unfoldable pub check_refs : State → ℕ → Option ℕ → List Ref → Check
  unfolding check_one
  check_refs st sid by [] = clear
  check_refs st sid by (r ∷ rs) =
      check_one st sid by r.target (decision r.target) (check_refs st sid by rs)

  -- The loop over the enclosing definitions, outward from `child`.
  unfoldable pub raise : ℕ → ℕ → Option ℕ → State → State
  raise f child none st = st
  raise zero child (some p) st = st
  raise (suc f) child (some p) st =
      let outer = raise f p (sym sema p).parent (record st {
        marks = update st.marks p container;
        introduced = set_introduced st.introduced p (some child);
      }) in
      if at_least (st.marks p) container then st else outer

  -- From `let was = self.marks[i]` to the end of `keep`.
  unfoldable pub commit : ℕ → Mark → Option ℕ → State → State
  unfolding raise
  commit sid level by st =
      let raised = raise (suc sid) sid (sym sema sid).parent (record st {
        marks = update st.marks sid level;
        introduced = set_introduced st.introduced sid by;
      }) in
      if below (st.marks sid) required && not (raised.processed sid)
      then record raised {
        processed = update raised.processed sid true;
        queue = raised.queue ++ sid ∷ [];
      }
      else raised

  keep_checked : Check → ℕ → Mark → Option ℕ → State → Result SelectError State
  unfolding commit
  keep_checked clear sid level by st = ok (commit sid level by st)
  keep_checked cascades sid level by st =
      ok (record st { cascade = update st.cascade sid true; marks = update st.marks sid unmarked })
  keep_checked (refused e) sid level by st = err e

  abbrev check : State → ℕ → Option ℕ → Check
  check st sid by =
      if carries_refs (sym sema sid).kind then check_refs st sid by (refs sema sid) else clear

  unfoldable pub keep : ℕ → Mark → Option ℕ → State → Result SelectError State
  unfolding keep_checked check_refs
  keep sid level by st =
      if st.cascade sid
      then ok st
      else if at_least (st.marks sid) level
      then ok st
      else keep_checked (check st sid by) sid level by st

  -- Dropped content and nested definitions are passed over.
  abbrev pub is_content : ℕ → Bool
  is_content c = not (excludes (decision c)) && not (is_def (sym sema c).kind)

  abbrev pub content_level : ℕ → Mark
  content_level c = if keeps (decision c) then explicit else required

  unfoldable pub keep_children : ℕ → List ℕ → State → Result SelectError State
  keep_children sid [] st = ok st
  keep_children sid (c ∷ cs) st =
      if is_content c
      then keep c (content_level c) (some sid) st >>= keep_children sid cs
      else keep_children sid cs st

  unfoldable pub keep_targets : ℕ → List Ref → State → Result SelectError State
  keep_targets sid [] st = ok st
  keep_targets sid (r ∷ rs) st = keep r.target required (some sid) st >>= keep_targets sid rs

  process_kind : SymKind → ℕ → State → Result SelectError State
  unfolding keep_children keep_targets
  process_kind SymKind.message sid st = keep_children sid (children sema sid) st
  process_kind SymKind.enum sid st = keep_children sid (children sema sid) st
  process_kind SymKind.service sid st = keep_children sid (children sema sid) st
  process_kind SymKind.field sid st = keep_targets sid (refs sema sid) st
  process_kind SymKind.method sid st = keep_targets sid (refs sema sid) st
  process_kind SymKind.enum_value sid st = ok st

  unfoldable pub process : ℕ → State → Result SelectError State
  unfolding process_kind
  process sid st =
      if is_none (sym sema sid).file then ok st else process_kind (sym sema sid).kind sid st

  -- The seeding loop: `n` symbols from `i` on.
  unfoldable pub seed : ℕ → ℕ → State → Result SelectError State
  seed zero i st = ok st
  seed (suc n) i st =
      if not (is_none (sym sema i).file) && keeps (decision i)
      then keep i explicit none st >>= seed n (suc i)
      else seed n (suc i) st

  -- `while let Some(sid) = sel.queue.pop_front()`, with fuel for the rounds.
  unfoldable pub drain : ℕ → State → Result SelectError State
  drain zero st = elim st.queue [ [] ↦ ok st | _ ∷ _ ↦ err out_of_fuel ]
  drain (suc f) st = elim st.queue [
    | [] ↦ ok st
    | sid ∷ rest ↦ process sid (record st { queue = rest }) >>= drain f
  ]

  -- The closure as `select` runs it: a symbol is queued at most once, so there are no more rounds
  -- than symbols.
  unfoldable pub close : Result SelectError State
  unfolding seed drain
  close = seed (sym_count sema) 0 blank >>= drain (sym_count sema)
