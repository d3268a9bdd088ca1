-- ===== src/Tests/RulesFile.antt =====
-- A rules file with a block: `+ a`, then in `pkg` the rule `-! B @field`.
use pbpp.Prelude.{◌≡◌, refl, ℕ, some, none, [], ◌∷◌, ◌++◌, ok}
use pbpp.Text.{Text, codes, split_inclusive}
use pbpp.Span as Span
use pbpp.Sema.Kind.{SymKind}
use pbpp.Rules.{Polarity, lit}
use pbpp.Rules.Pattern.{parse_pattern, parse_kind}
use pbpp.Rules.Parse.{read_line, span_of, content, parse_rules}
use pbpp.Rules.Parse.Blocks.{
  Entries, entry, block, nothing, lines, rules_of, read_all, parse_rules-Entries,
}

abbrev with_newline : Text → Text
with_newline t = t ++ 10 ∷ []

abbrev rules_file : Text
rules_file =
    with_newline (codes "+ a")
    ++ (with_newline (codes "pkg {")
        ++ (with_newline (codes "  -! B @field # gone") ++ with_newline (codes "}")))

abbrev between : ℕ → ℕ → Span.Span
between a b = record { start = a; end = b }

abbrev entries : Entries
entries = entry (between 0 3) (codes "+ a") Polarity.keep (lit (codes "a") ∷ []) none (
    block (between 4 9) (codes "pkg {") (lit (codes "pkg") ∷ [])
      (entry (between 12 23) (codes "-! B @field") Polarity.drop_cascade (lit (codes "B") ∷ [])
        (some SymKind.field) nothing)
      (between 31 32) (codes "}") nothing)

lines_read : read_all (split_inclusive 10 rules_file) 0 ≡ ok (lines entries)
unfolding read_all read_line span_of content split_inclusive lines parse_pattern parse_kind
lines_read = refl

parse_rules-Entries_example :
    parse_rules rules_file ≡ ok (record { rules = rules_of [] entries; src = some rules_file })
parse_rules-Entries_example =
    parse_rules-Entries rules_file entries lines_read (unfold rules_of in λ e. cc)
