-- ===== src/Metadata/Read/Sizes.antt =====
-- The size of a sample and the TCP signal rate, src/metadata.cpp, with the access by a JSON pointer
-- of include/ws-streaming/detail/json.hpp, and what the other components take of the metadata.
use Prim.Native.String.{String}
use ws_streaming.Prelude.{
  ℕ, ◌+◌, ◌*◌, ◌%◌, ◌^◌, List, [], ◌∷◌, ◌&&◌, Option, none, some, if◌then◌else◌, ◌==◌,
}
use ws_streaming.Signals.Ids.{same_id}
use ws_streaming.Signals.Metadata
use ws_streaming.Signals.Metadata.{SignalRate, tcp_signal_rate_ticks}
use ws_streaming.Metadata.Document.{Library}
use ws_streaming.Metadata.Read.{
  struct_t, get_primitive_size, member, object_in, member_of, definition_at, integer_or, data_type,
  rule, linear_start_delta, table_id, value_index,
}

module _ (lib : Library) where
  -- The elements of a field that is an array.
  unfoldable pub array_in : Option lib.Json → List lib.Json
  array_in none = []
  array_in (some v) = if lib.is_array v then lib.elements v else []

  unfoldable pub first : List lib.Json → Option lib.Json
  first [] = none
  first (v ∷ vs) = some v

  -- The number of values in a structure field: the size of its first dimension, if that is linear.
  unfoldable pub field_count : lib.Json → ℕ
  unfolding member object_in member_of integer_or array_in first
  field_count field =
      let linear =
        member_of lib (object_in lib (first (array_in (member lib field "dimensions")))) "linear" in
      elim (object_in lib linear) [ none ↦ 1 | some v ↦ integer_or lib (member lib v "size") 1 ]

  unfoldable pub type_size : Option lib.Json → ℕ
  unfolding get_primitive_size
  type_size none = 0
  type_size (some v) = if lib.is_string v then get_primitive_size (lib.get_string v) else 0

  -- One round of the loop over the fields; what is no object or has no type is passed over.
  unfoldable pub add_field : ℕ → lib.Json → ℕ
  unfolding member type_size field_count
  add_field size field =
      if lib.is_object field
        && lib.contains field "dataType"
        && lib.is_string (lib.at field "dataType")
      then (size + type_size (member lib field "dataType") * field_count field % 2 ^ 64) % 2 ^ 64
      else size

  unfoldable pub add_fields : ℕ → List lib.Json → ℕ
  unfolding add_field
  add_fields size [] = size
  add_fields size (field ∷ fields) = add_fields (add_field size field) fields

  unfoldable pub size_of : String → List lib.Json → ℕ
  unfolding get_primitive_size add_fields
  size_of type fields =
      let size = get_primitive_size type in
      if (size == 0) && same_id type struct_t then add_fields size fields else size

  unfoldable pub sample_size : lib.Json → ℕ
  unfolding size_of array_in
  sample_size json = size_of (data_type lib json) (array_in (definition_at lib json "struct"))

  unfoldable pub json_ptr : lib.Json → String → ℕ → ℕ
  json_ptr json pointer fallback =
      elim (lib.get_word_32 (lib.value_pointer json pointer lib.null)) [
        | none ↦ fallback
        | some w ↦ w
      ]

  unfoldable pub read_rate : lib.Json → SignalRate
  unfolding json_ptr
  read_rate v = record {
    seconds = json_ptr v "/delta/seconds" 0;
    fraction = json_ptr v "/delta/fraction" 0;
    sub_fraction = json_ptr v "/delta/subFraction" 0;
    samples = json_ptr v "/samples" 1;
  }

  -- `none` where a division by 0 throws, as in `tcp_signal_rate_ticks` of a rate.
  unfoldable pub rate_ticks : Option lib.Json → ℕ → ℕ → Option ℕ
  unfolding tcp_signal_rate_ticks read_rate
  rate_ticks none numerator denominator = some 0
  rate_ticks (some v) numerator denominator =
      tcp_signal_rate_ticks (read_rate v) numerator denominator

  unfoldable pub signal_rate_ticks : lib.Json → ℕ → ℕ → Option ℕ
  unfolding rate_ticks object_in member
  signal_rate_ticks json = rate_ticks (object_in lib (member lib json "signalRate"))

  -- The metadata as the containers of signals and the tables read it.
  unfoldable pub read_metadata : lib.Json → Metadata.Metadata
  unfolding rule data_type sample_size linear_start_delta table_id value_index
  read_metadata json =
      let (start, delta) = linear_start_delta lib json in
      record {
        rule = rule lib json;
        data_type = data_type lib json;
        sample_size = sample_size json;
        linear = record {
          table_id = table_id lib json;
          start = start;
          delta = delta;
          value_index = value_index lib json;
        };
      }
