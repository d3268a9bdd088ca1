-- ===== src/Tests/Paths.antt =====
-- Import paths, accepted and refused.
use pbpp.Prelude.{◌≡◌, refl, false, some, [], All}
use pbpp.Text.{Text, codes, text_eq, split}
use pbpp.Fs.{starts_with, valid_import_path, check_import_path, reserved_prefix}
use pbpp.Fs.Walk.{walk, onto, check_import_path-walk}

abbrev inner_path : Text
inner_path = codes "acme/v1/user.proto"

climbs : valid_import_path (codes "a/../../b.proto") ≡ false
unfolding valid_import_path text_eq split starts_with
climbs = refl

check_import_path-walk_example :
    (starts_with inner_path (codes "/") ≡ false)
    × (walk [] (split b'/' inner_path) ≡ some (onto [] (split b'/' inner_path)))
    × All (λ s. starts_with s reserved_prefix ≡ false) (split b'/' inner_path)
unfolding check_import_path valid_import_path text_eq split starts_with
check_import_path-walk_example = check_import_path-walk inner_path refl
