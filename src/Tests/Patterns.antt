-- ===== src/Tests/Patterns.antt =====
-- A pattern parsed from its text.
use pbpp.Prelude.{◌≡◌, refl, List, [], ◌∷◌, some, ok}
use pbpp.Text.{codes, text_eq, trim, split}
use pbpp.Sema.Kind.{SymKind}
use pbpp.Rules.{PatSeg, lit, star, double_star}
use pbpp.Rules.Pattern.{is_ident, parse_pattern, parse_kind}
use pbpp.Rules.Pattern.RoundTrip.{written, parse_pattern-written}

abbrev rest_of : List PatSeg
rest_of = double_star ∷ lit (codes "v1_Z") ∷ star ∷ []

spaced : parse_pattern (codes "acme . **.v1_Z.*") ≡ ok (lit (codes "acme") ∷ rest_of)
unfolding parse_pattern text_eq trim split is_ident
spaced = refl

value_kind : parse_kind (codes "value") ≡ some SymKind.enum_value
unfolding parse_kind text_eq
value_kind = refl

parse_pattern-written_example :
    parse_pattern (written (lit (codes "acme") ∷ rest_of)) ≡ ok (lit (codes "acme") ∷ rest_of)
unfolding is_ident
parse_pattern-written_example =
    parse_pattern-written (lit (codes "acme")) rest_of (refl, (tt, (refl, (tt, tt))))
