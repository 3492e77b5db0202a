-- ===== src/Metadata/Fields.antt =====
-- The fields of a structure: the builders of src/struct_field_builder.cpp and
-- src/dimension_builder.cpp, and the accessors of src/struct_field.cpp and
-- src/struct_field_dimension.cpp.
pub mod Layout
use Prim.Native.String.{String}
use ws_streaming.Prelude.{ℕ, List, [], ◌∷◌, ◌++◌, not, ◌||◌, Option, none, some, if◌then◌else◌}
use ws_streaming.Signals.Ids.{same_id}
use ws_streaming.Signals.Metadata.{linear_rule, explicit_rule}
use ws_streaming.Metadata.Document.{Library}
use ws_streaming.Metadata.Read.{member, string_or, object_in, number_in, unknown_t}
use ws_streaming.Metadata.Build.{object}

module _ (lib : Library) where
  unfoldable pub struct_field_builder : String → lib.Json
  struct_field_builder name =
      object lib (("name", lib.text name) ∷ ("rule", lib.text "explicit") ∷ [])

  unfoldable pub set_array : lib.Json → ℕ → lib.Json
  set_array json size = lib.set json "dimensions" (
      lib.array (
        object lib (
          ("name", lib.text "Dimension")
          ∷ ("rule", lib.text linear_rule)
          ∷ (
            linear_rule,
            object lib (
                ("delta", lib.integer 0)
                ∷ ("size", lib.unsigned size)
                ∷ ("start", lib.integer 1)
                ∷ []),
          )
          ∷ [])
        ∷ []))

  unfoldable pub set_data_type : lib.Json → String → lib.Json
  set_data_type json type = lib.set json "dataType" (lib.text type)

  -- As the source writes it: an array that is there is replaced as well.
  unfoldable pub add_dimension : lib.Json → lib.Json → lib.Json
  add_dimension json dimension =
      let ready =
        if not (lib.contains json "dimensions") || lib.is_array (lib.at json "dimensions")
        then lib.set json "dimensions" (lib.array [])
        else json in
      lib.set ready "dimensions"
        (lib.array (lib.elements (lib.at ready "dimensions") ++ dimension ∷ []))

  unfoldable pub dimension_builder : String → lib.Json
  dimension_builder name =
      object lib (("name", lib.text name) ∷ ("rule", lib.text explicit_rule) ∷ [])

  unfoldable pub set_dimension_rule : lib.Json → ℕ → ℕ → ℕ → lib.Json
  set_dimension_rule json start delta size =
      lib.set (lib.set json "rule" (lib.text linear_rule)) "linear" (
        object lib (
          ("start", lib.integer start)
          ∷ ("delta", lib.integer delta)
          ∷ ("size", lib.unsigned size)
          ∷ []))

  -- The accessors of a field and of a dimension.
  unfoldable pub data_type : lib.Json → String
  data_type json = string_or lib (member lib json "dataType") unknown_t

  unfoldable pub name : lib.Json → String
  name json = string_or lib (member lib json "name") ""

  unfoldable pub rule : lib.Json → String
  rule json = string_or lib (member lib json "rule") explicit_rule

  unfoldable pub read_linear : Option lib.Json → Option ℕ × Option ℕ × Option ℕ
  read_linear none = (none, none, none)
  read_linear (some v) = (
    number_in lib (member lib v "start"),
    number_in lib (member lib v "delta"),
    number_in lib (member lib v "size"),
  )

  unfoldable pub linear_start_delta_size : lib.Json → Option ℕ × Option ℕ × Option ℕ
  unfolding rule read_linear
  linear_start_delta_size json =
      if not (same_id (rule json) linear_rule)
      then (none, none, none)
      else read_linear (object_in lib (member lib json "linear"))
