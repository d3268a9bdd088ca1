-- ===== src/Tests/WellKnown.antt =====
-- The table of well-known types.
use pbpp.Prelude.{◌≡◌, refl, true, ◌&&◌, all}
use pbpp.Text.{text_eq}
use pbpp.Fs.{starts_with}
use pbpp.Wkt.{WktType, types, is_wkt_file, is_google_protobuf_path}

-- Every type stands in a well-known file, in the namespace that is kept out of the inputs.
types_in_files :
    all (λ (t : WktType). is_wkt_file t.file && is_google_protobuf_path t.file) types ≡ true
unfolding is_wkt_file is_google_protobuf_path text_eq starts_with
types_in_files = refl
