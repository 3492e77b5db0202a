-- ===== src/Metadata/Read.antt =====
-- The accessors of src/metadata.cpp, as functions of the JSON value that a metadata object holds.
pub mod Sizes
use Prim.Native.String.{String}
use ws_streaming.Prelude.{
  ◌≡◌, ℕ, ◌+◌, ◌*◌, ◌%◌, ◌^◌, ◌-◌, List, [], ◌∷◌, Bool, true, false, not, ◌&&◌, Option, none, some,
  if◌then◌else◌, ◌==◌,
}
use ws_streaming.Signals.Ids.{same_id}
use ws_streaming.Signals.Metadata
use ws_streaming.Signals.Metadata.{linear_rule, explicit_rule, SignalRate, tcp_signal_rate_ticks}
use ws_streaming.Metadata.Document.{Library}

abbrev pub unknown_t : String
unknown_t = "unknown"

abbrev pub struct_t : String
struct_t = "struct"

-- The identifier is a word of 32 bits.
pub record SignalUnit : Type 0 where
  pub id : ℕ
  pub name : String
  pub quantity : String
  pub symbol : String

unfoldable pub get_primitive_size : String → ℕ
get_primitive_size type =
    if same_id type "int8"
    then 1
    else if same_id type "int16"
    then 2
    else if same_id type "int32"
    then 4
    else if same_id type "int64"
    then 8
    else if same_id type "uint8"
    then 1
    else if same_id type "uint16"
    then 2
    else if same_id type "uint32"
    then 4
    else if same_id type "uint64"
    then 8
    else if same_id type "real32"
    then 4
    else if same_id type "real64"
    then 8
    else 0

module _ (lib : Library) where
  -- The constructor: what is no object is replaced by an empty one.
  unfoldable pub metadata : lib.Json → lib.Json
  metadata json = if lib.is_object json then json else lib.empty_object

  -- A field, where there is one, and a field that is an object.
  unfoldable pub member : lib.Json → String → Option lib.Json
  member json key = if lib.contains json key then some (lib.at json key) else none

  unfoldable pub object_in : Option lib.Json → Option lib.Json
  object_in none = none
  object_in (some v) = if lib.is_object v then some v else none

  unfoldable pub member_of : Option lib.Json → String → Option lib.Json
  unfolding member
  member_of none key = none
  member_of (some v) key = member v key

  unfoldable pub definition_at : lib.Json → String → Option lib.Json
  unfolding member object_in member_of
  definition_at json key = member_of (object_in (member json "definition")) key

  unfoldable pub interpretation_at : lib.Json → String → Option lib.Json
  unfolding member object_in member_of
  interpretation_at json key = member_of (object_in (member json "interpretation")) key

  -- What is read of a field, and what is given in its place.
  unfoldable pub string_or : Option lib.Json → String → String
  string_or none s = s
  string_or (some v) s = if lib.is_string v then lib.get_string v else s

  unfoldable pub integer_or : Option lib.Json → ℕ → ℕ
  integer_or none w = w
  integer_or (some v) w = if lib.is_number_integer v then lib.get_integer v else w

  unfoldable pub real_or : Option lib.Json → lib.Real → lib.Real
  real_or none x = x
  real_or (some v) x = if lib.is_number v then lib.get_real v else x

  unfoldable pub number_in : Option lib.Json → Option ℕ
  number_in none = none
  number_in (some v) = if lib.is_number v then some (lib.get_integer v) else none

  unfoldable pub endian : lib.Json → String
  endian json = string_or (definition_at json "endian") "unknown"

  unfoldable pub data_type : lib.Json → String
  data_type json = string_or (definition_at json "dataType") unknown_t

  unfoldable pub name : lib.Json → String
  name json = string_or (definition_at json "name") ""

  unfoldable pub rule : lib.Json → String
  rule json = string_or (definition_at json "rule") explicit_rule

  -- The start and the delta in an object of parameters, and where the parameters are: in the
  -- interpretation first.
  unfoldable pub read_linear : Option lib.Json → Option ℕ × Option ℕ
  unfolding number_in member
  read_linear none = (none, none)
  read_linear (some v) = (number_in (member v "start"), number_in (member v "delta"))

  unfoldable pub first_object : Option lib.Json → Option lib.Json → Option lib.Json
  unfolding object_in
  first_object none other = object_in other
  first_object (some v) other = some v

  unfoldable pub linear_parameters : Option lib.Json → Option lib.Json → Option lib.Json
  unfolding object_in member_of first_object
  linear_parameters interpreted defined =
      first_object (object_in (member_of (object_in interpreted) "parameters")) defined

  unfoldable pub linear_start_delta : lib.Json → Option ℕ × Option ℕ
  unfolding rule read_linear linear_parameters
  linear_start_delta json =
      if same_id (rule json) linear_rule
      then read_linear
          (linear_parameters (interpretation_at json "rule") (definition_at json "linear"))
      else (none, none)

  -- A string in the definition comes before one in the interpretation.
  unfoldable pub origin : lib.Json → String
  unfolding string_or
  origin json =
      string_or (definition_at json "origin") (string_or (interpretation_at json "origin") "")

  unfoldable pub read_range : Option lib.Json → Option (lib.Real × lib.Real)
  unfolding real_or member
  read_range none = none
  read_range (some v) =
      some (real_or (member v "low") lib.zero_real, real_or (member v "high") lib.zero_real)

  unfoldable pub range : lib.Json → Option (lib.Real × lib.Real)
  unfolding read_range object_in
  range json = read_range (object_in (definition_at json "range"))

  unfoldable pub read_resolution : Option lib.Json → Option (ℕ × ℕ)
  unfolding integer_or member
  read_resolution none = none
  read_resolution (some v) = some (integer_or (member v "num") 1, integer_or (member v "denom") 1)

  unfoldable pub tick_resolution : lib.Json → Option (ℕ × ℕ)
  unfolding read_resolution object_in
  tick_resolution json = read_resolution (object_in (definition_at json "resolution"))

  unfoldable pub interpreted_unit : lib.Json → SignalUnit
  unfolding string_or integer_or member
  interpreted_unit v = record {
    id = integer_or (member v "id") (2 ^ 32 - 1) % 2 ^ 32;
    name = string_or (member v "name") "";
    quantity = string_or (member v "quantity") "";
    symbol = string_or (member v "symbol") "";
  }

  unfoldable pub defined_unit : lib.Json → SignalUnit
  unfolding string_or integer_or member
  defined_unit v = record {
    id = integer_or (member v "unitId") (2 ^ 32 - 1) % 2 ^ 32;
    name = string_or (member v "displayName") "";
    quantity = string_or (member v "quantity") "";
    symbol = string_or (member v "displayName") "";
  }

  unfoldable pub read_unit : Option lib.Json → Option lib.Json → Option SignalUnit
  unfolding interpreted_unit defined_unit
  read_unit (some v) other = some (interpreted_unit v)
  read_unit none (some v) = some (defined_unit v)
  read_unit none none = none

  unfoldable pub unit : lib.Json → Option SignalUnit
  unfolding read_unit object_in
  unit json =
      read_unit (object_in (interpretation_at json "unit")) (object_in (definition_at json "unit"))

  unfoldable pub table_id : lib.Json → String
  unfolding string_or member
  table_id json = string_or (member json "tableId") ""

  unfoldable pub integer_in : Option lib.Json → Option ℕ
  integer_in none = none
  integer_in (some v) = if lib.is_number_integer v then some (lib.get_integer v) else none

  unfoldable pub value_index : lib.Json → Option ℕ
  unfolding integer_in member
  value_index json = integer_in (member json "valueIndex")
