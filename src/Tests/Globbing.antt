-- ===== src/Tests/Globbing.antt =====
-- Patterns of rules at concrete paths.
use pbpp.Prelude.{◌≡◌, refl, ◌↔◌, true, false, [], ◌∷◌, List}
use pbpp.Text.{codes}
use pbpp.Rules.{PatSeg, lit, double_star}
use pbpp.Rules.Glob.{glob, glob_iff, Matches}

-- `a.**.z`
abbrev a_to_z : List PatSeg
a_to_z = lit (codes "a") ∷ double_star ∷ lit (codes "z") ∷ []

middle_matches_zero : glob a_to_z (codes "a" ∷ codes "z" ∷ []) ≡ true
unfolding glob
middle_matches_zero = refl

trailing_needs_one : glob (lit (codes "a") ∷ double_star ∷ []) (codes "a" ∷ []) ≡ false
unfolding glob
trailing_needs_one = refl

glob_iff_example :
    (glob a_to_z (codes "a" ∷ codes "b" ∷ codes "z" ∷ []) ≡ true)
    ↔ Matches a_to_z (codes "a" ∷ codes "b" ∷ codes "z" ∷ [])
glob_iff_example = glob_iff a_to_z (codes "a" ∷ codes "b" ∷ codes "z" ∷ [])
