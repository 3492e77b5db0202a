-- ===== src/Metadata/Refinement/Views.antt =====
-- The accessors of src/metadata.cpp as functions of the fields that they look up.
use ws_streaming.Prelude.{◌≡◌, refl, none, if◌then◌else◌}
use ws_streaming.Signals.Ids.{same_id}
use ws_streaming.Signals.Metadata.{linear_rule, explicit_rule}
use ws_streaming.Metadata.Document.{Library}
use ws_streaming.Metadata.Read.{
  object_in, name, data_type, endian, rule, linear_start_delta, origin, range, tick_resolution,
  unit, table_id, value_index, unknown_t, string_or, read_linear, linear_parameters, read_range,
  read_resolution, read_unit, integer_in,
}
use ws_streaming.Metadata.Read.Sizes.{array_in}
use ws_streaming.Metadata.Build.Slots.{Slots, slots}
use ws_streaming.Metadata.Refinement.{View, view, is_text}

module _ (lib : Library) where
  unfoldable pub view_of : Slots lib → View lib
  unfolding string_or read_linear linear_parameters read_range read_resolution read_unit object_in
      is_text array_in integer_in
  view_of s = record {
    name = string_or lib (s.definition "name") "";
    data_type = string_or lib (s.definition "dataType") unknown_t;
    endian = string_or lib (s.definition "endian") "unknown";
    rule = string_or lib (s.definition "rule") explicit_rule;
    start_delta =
        if same_id (string_or lib (s.definition "rule") explicit_rule) linear_rule
        then read_linear lib
            (linear_parameters lib (s.interpretation "rule") (s.definition "linear"))
        else (none, none);
    range = read_range lib (object_in lib (s.definition "range"));
    resolution = read_resolution lib (object_in lib (s.definition "resolution"));
    unit =
        read_unit lib (object_in lib (s.interpretation "unit"))
          (object_in lib (s.definition "unit"));
    fixed_origin = is_text lib (s.definition "origin");
    origin = string_or lib (s.definition "origin") (string_or lib (s.interpretation "origin") "");
    fields = array_in lib (s.definition "struct");
    table_id = string_or lib s.table_id "";
    value_index = integer_in lib s.value_index;
    rate = object_in lib s.signal_rate;
  }

  pub view-slots : (json : lib.Json) → view lib json ≡ view_of (slots lib json)
  unfolding view view_of slots name data_type endian rule linear_start_delta range tick_resolution
      unit origin table_id value_index
  view-slots json = refl
