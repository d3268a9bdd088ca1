-- ===== src/Rules/Parse/Blocks.antt =====
-- src/rules.rs: what a rules file of nested blocks means.
use mathlib.Core.List.{append_assoc}
use pbpp.Prelude.{
  ℕ, ◌+◌, ◌≡◌, ◌≢◌, ◌∙◌, refl, sym, ap, subst, Option, some, List, [], ◌∷◌, ◌++◌, append_nil,
  Result, ok, err, ◌>>=◌, >>=-eq-ok,
}
use pbpp.Text.{Text, byte_len, trim, split_inclusive}
use pbpp.Span as Span
use pbpp.Sema.Kind.{SymKind}
use pbpp.Rules.{Rule, Polarity, PatSeg}
use pbpp.Rules.Parse.{
  RulesError, Line, skip, close, open_scope, rule, read_line, content, span_of, Parsing, prefix_of,
  step, parse_lines, finish, parse_rules,
}

-- A line with its place and its trimmed content.
pub record Read : Type 0 where
  pub span : Span.Span
  pub text : Text
  pub line : Line

-- The entries of a file or a block: blank lines, rules, and blocks with the lines that open and
-- close them.
pub data Entries : Type 0 where
  nothing : Entries
  blank : Span.Span → Text → Entries → Entries
  entry : Span.Span → Text → Polarity → List PatSeg → Option SymKind → Entries → Entries
  block : Span.Span → Text → List PatSeg → Entries → Span.Span → Text → Entries → Entries

-- The lines in their order.
unfoldable pub lines : Entries → List Read
lines nothing = []
lines (blank span text es) = record { span = span; text = text; line = skip } ∷ lines es
lines (entry span text polarity p kind es) =
    record { span = span; text = text; line = rule polarity p kind } ∷ lines es
lines (block span text p inner span2 text2 es) =
    record { span = span; text = text; line = open_scope p }
    ∷ (lines inner ++ (record { span = span2; text = text2; line = close } ∷ lines es))

-- The rules of the entries, each with the prefixes of the blocks around it.
unfoldable pub rules_of : List PatSeg → Entries → List Rule
rules_of prefix nothing = []
rules_of prefix (blank span text es) = rules_of prefix es
rules_of prefix (entry span text polarity p kind es) =
    record { polarity = polarity; pattern = prefix ++ p; kind = kind; raw = text; span = some span }
    ∷ rules_of prefix es
rules_of prefix (block span text p inner span2 text2 es) =
    rules_of (prefix ++ p) inner ++ rules_of prefix es

-- The lines of a file that are read one after the other.
unfoldable pub read_all : List Text → ℕ → Result RulesError (List Read)
unfolding read_line span_of content trim byte_len
read_all [] offset = ok []
read_all (l ∷ ls) offset = read_line (span_of offset l) (trim (content l)) >>= λ line.
    read_all ls (offset + byte_len l) >>= λ rest.
    ok (record { span = span_of offset l; text = trim (content l); line = line } ∷ rest)

run : List Read → Parsing → Result RulesError Parsing
run [] st = ok st
run (r ∷ rs) st = step r.span r.text r.line st >>= run rs

bind_same :
    {A B : Type 0} (r : Result RulesError A) (f g : A → Result RulesError B)
    → ((x : A) → f x ≡ g x)
    → (r >>= f) ≡ (r >>= g)
bind_same (err e) f g h = refl
bind_same (ok x) f g h = h x

parse_lines-run :
    (ls : List Text) (offset : ℕ) (st : Parsing) (rs : List Read)
    → read_all ls offset ≡ ok rs
    → parse_lines ls offset st ≡ run rs st
unfolding parse_lines read_all run
parse_lines-run [] offset st rs e =
    let same : [] ≡ rs = cc in subst (λ (q : List Read). ok st ≡ run q st) same refl
parse_lines-run (l ∷ ls) offset st rs e =
    let (line, one, more) =
      >>=-eq-ok (read_line (span_of offset l) (trim (content l)))
        (λ line. read_all ls (offset + byte_len l) >>= λ rest.
          ok (record { span = span_of offset l; text = trim (content l); line = line } ∷ rest))
        e in
    let (rest, two, last) = >>=-eq-ok (read_all ls (offset + byte_len l)) _ more in
    let read : Read = record { span = span_of offset l; text = trim (content l); line = line } in
    let same : read ∷ rest ≡ rs = cc in
    subst (λ (q : List Read). parse_lines (l ∷ ls) offset st ≡ run q st) same
      (rw one (
        bind_same (step read.span read.text line st) (parse_lines ls (offset + byte_len l))
          (run rest) (λ x. parse_lines-run ls (offset + byte_len l) x rest two)))

abbrev after : Parsing → List Rule → Parsing
after st new = record { rules = st.rules ++ new; scopes = st.scopes }

run-lines :
    (es : Entries) (more : List Read) (st : Parsing)
    → run (lines es ++ more) st ≡ run more (after st (rules_of (prefix_of st.scopes) es))
unfolding run lines rules_of step
run-lines nothing more st =
    ap (run more) (λ i. record { rules = sym (append_nil st.rules) i; scopes = st.scopes })
run-lines (blank span text es) more st = run-lines es more st
run-lines (entry span text polarity p kind es) more st =
    let r : Rule = record {
      polarity = polarity;
      pattern = prefix_of st.scopes ++ p;
      kind = kind;
      raw = text;
      span = some span;
    } in
    run-lines es more (after st (r ∷ []))
    ∙ ap (λ (l : List Rule). run more (record { rules = l; scopes = st.scopes }))
        (append_assoc st.rules (r ∷ []) (rules_of (prefix_of st.scopes) es))
run-lines (block span text p inner span2 text2 es) more st =
    let c : Read = record { span = span2; text = text2; line = close } in
    let prefix = prefix_of st.scopes in
    let opened : Parsing = record { rules = st.rules; scopes = (prefix ++ p, span) ∷ st.scopes } in
    ap (λ (l : List Read). run l opened) (append_assoc (lines inner) (c ∷ lines es) more)
    ∙ run-lines inner (c ∷ (lines es ++ more)) opened
    ∙ run-lines es more (after st (rules_of (prefix ++ p) inner))
    ∙ ap (λ (l : List Rule). run more (record { rules = l; scopes = st.scopes }))
        (append_assoc st.rules (rules_of (prefix ++ p) inner) (rules_of prefix es))

finish-ok :
    (src : Text) (rs : List Rule)
    → rs ≢ []
    → finish src rs [] ≡ ok (record { rules = rs; src = some src })
unfolding finish
finish-ok src [] some_rule = absurd (some_rule refl)
finish-ok src (r ∷ rs) some_rule = refl

-- A file whose lines are those of nested blocks with some rule in them gives the rules in their
-- order, each pattern behind the prefixes of all the blocks around it.
pub parse_rules-Entries :
    (src : Text) (es : Entries)
    → read_all (split_inclusive 10 src) 0 ≡ ok (lines es)
    → rules_of [] es ≢ []
    → parse_rules src ≡ ok (record { rules = rules_of [] es; src = some src })
unfolding parse_rules
parse_rules-Entries src es e some_rule =
    let fresh : Parsing = record { rules = []; scopes = [] } in
    let whole : parse_lines (split_inclusive 10 src) 0 fresh ≡ ok (after fresh (rules_of [] es)) =
      parse_lines-run (split_inclusive 10 src) 0 fresh (lines es) e
      ∙ ap (λ (l : List Read). run l fresh) (sym (append_nil (lines es)))
      ∙ run-lines es [] fresh
      ∙ (unfold run in refl) in
    rw whole (finish-ok src (rules_of [] es) some_rule)
