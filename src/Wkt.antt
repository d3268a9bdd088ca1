-- ===== src/Wkt.antt =====
-- src/wkt.rs: the well-known files and the types in them.
use pbpp.Prelude.{Bool, true, false, List, [], ◌∷◌, any}
use pbpp.Text.{Text, codes, text_eq}
use pbpp.Fs.{starts_with}

abbrev pub files : List Text
files =
    codes "google/protobuf/any.proto"
    ∷ codes "google/protobuf/api.proto"
    ∷ codes "google/protobuf/duration.proto"
    ∷ codes "google/protobuf/empty.proto"
    ∷ codes "google/protobuf/field_mask.proto"
    ∷ codes "google/protobuf/source_context.proto"
    ∷ codes "google/protobuf/struct.proto"
    ∷ codes "google/protobuf/timestamp.proto"
    ∷ codes "google/protobuf/type.proto"
    ∷ codes "google/protobuf/wrappers.proto"
    ∷ []

unfoldable pub is_wkt_file : Text → Bool
unfolding text_eq
is_wkt_file path = any (λ f. text_eq f path) files

unfoldable pub is_google_protobuf_path : Text → Bool
unfolding starts_with
is_google_protobuf_path path = starts_with path (codes "google/protobuf/")

pub record WktType : Type 0 where
  pub name : Text
  pub file : Text
  pub is_enum : Bool

abbrev msg : Text → Text → WktType
msg name file = record { name = name; file = file; is_enum = false }

abbrev en : Text → Text → WktType
en name file = record { name = name; file = file; is_enum = true }

abbrev pub types : List WktType
types =
    msg (codes "Any") (codes "google/protobuf/any.proto")
    ∷ msg (codes "Api") (codes "google/protobuf/api.proto")
    ∷ msg (codes "Method") (codes "google/protobuf/api.proto")
    ∷ msg (codes "Mixin") (codes "google/protobuf/api.proto")
    ∷ msg (codes "Duration") (codes "google/protobuf/duration.proto")
    ∷ msg (codes "Empty") (codes "google/protobuf/empty.proto")
    ∷ msg (codes "FieldMask") (codes "google/protobuf/field_mask.proto")
    ∷ msg (codes "SourceContext") (codes "google/protobuf/source_context.proto")
    ∷ msg (codes "Struct") (codes "google/protobuf/struct.proto")
    ∷ msg (codes "Value") (codes "google/protobuf/struct.proto")
    ∷ en (codes "NullValue") (codes "google/protobuf/struct.proto")
    ∷ msg (codes "ListValue") (codes "google/protobuf/struct.proto")
    ∷ msg (codes "Timestamp") (codes "google/protobuf/timestamp.proto")
    ∷ msg (codes "Type") (codes "google/protobuf/type.proto")
    ∷ msg (codes "Field") (codes "google/protobuf/type.proto")
    ∷ en (codes "Kind") (codes "google/protobuf/type.proto")
    ∷ en (codes "Cardinality") (codes "google/protobuf/type.proto")
    ∷ msg (codes "Enum") (codes "google/protobuf/type.proto")
    ∷ msg (codes "EnumValue") (codes "google/protobuf/type.proto")
    ∷ msg (codes "Option") (codes "google/protobuf/type.proto")
    ∷ en (codes "Syntax") (codes "google/protobuf/type.proto")
    ∷ msg (codes "DoubleValue") (codes "google/protobuf/wrappers.proto")
    ∷ msg (codes "FloatValue") (codes "google/protobuf/wrappers.proto")
    ∷ msg (codes "Int64Value") (codes "google/protobuf/wrappers.proto")
    ∷ msg (codes "UInt64Value") (codes "google/protobuf/wrappers.proto")
    ∷ msg (codes "Int32Value") (codes "google/protobuf/wrappers.proto")
    ∷ msg (codes "UInt32Value") (codes "google/protobuf/wrappers.proto")
    ∷ msg (codes "BoolValue") (codes "google/protobuf/wrappers.proto")
    ∷ msg (codes "StringValue") (codes "google/protobuf/wrappers.proto")
    ∷ msg (codes "BytesValue") (codes "google/protobuf/wrappers.proto")
    ∷ []
