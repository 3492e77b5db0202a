-- ===== src/Metadata/Refinement.antt =====
-- What the builder of src/metadata_builder.cpp promises to a reader of src/metadata.cpp: every
-- operation as a change of what the accessors give.
pub mod Views
pub mod Operations
pub mod Rules
pub mod Parts
pub mod Start
pub mod FromJson
pub mod Promise
use Prim.Native.String.{String}
use ws_streaming.Prelude.{
  ◌≡◌, refl, ℕ, ◌%◌, ◌^◌, List, [], ◌∷◌, ◌++◌, Bool, true, false, not, ◌&&◌, Option, none, some,
  if◌then◌else◌,
}
use ws_streaming.Signals.Ids.{same_id}
use ws_streaming.Signals.Metadata.{linear_rule, explicit_rule}
use ws_streaming.Metadata.Document.{Library}
use ws_streaming.Metadata.Read.{
  SignalUnit, object_in, definition_at, member, name, data_type, endian, rule, linear_start_delta,
  origin, range, tick_resolution, unit, table_id, value_index, struct_t, unknown_t,
}
use ws_streaming.Metadata.Read.Sizes.{array_in}
use ws_streaming.Metadata.Build.{
  constant_rule, set_constant_rule, set_data_type, set_endian, extra_metadata, set_linear_rule,
  set_origin, set_range, add_struct_field, set_table, tcp_signal_rate, set_tick_resolution,
  set_unit,
}

-- What the accessors give, with the fields of a structure and the object of the TCP signal rate.
-- An origin in the definition, which no operation writes, comes before the one that is set.
pub record View (lib : Library) : Type 0 where
  pub name : String
  pub data_type : String
  pub endian : String
  pub rule : String
  pub start_delta : Option ℕ × Option ℕ
  pub range : Option (lib.Real × lib.Real)
  pub resolution : Option (ℕ × ℕ)
  pub unit : Option SignalUnit
  pub fixed_origin : Bool
  pub origin : String
  pub fields : List lib.Json
  pub table_id : String
  pub value_index : Option ℕ
  pub rate : Option lib.Json

-- The operations, with their arguments; a field of a structure is the JSON value that its builder
-- has built.
pub data Operation (lib : Library) : Type 0 where
  constant_ruled : Operation lib
  typed : String → Operation lib
  endianness : String → Operation lib
  extra : String → String → Operation lib
  linear_ruled : ℕ → ℕ → Operation lib
  from_origin : String → Operation lib
  in_range : lib.Real → lib.Real → Operation lib
  field : lib.Json → Operation lib
  in_table : String → Operation lib
  rated : lib.Json → Operation lib
  resolved : ℕ → ℕ → Operation lib
  measured : SignalUnit → Operation lib

module _ (lib : Library) where
  unfoldable pub is_text : Option lib.Json → Bool
  is_text none = false
  is_text (some v) = lib.is_string v

  unfoldable pub view : lib.Json → View lib
  unfolding name data_type endian rule linear_start_delta range tick_resolution unit origin is_text
      array_in table_id value_index
  view json = record {
    name = name lib json;
    data_type = data_type lib json;
    endian = endian lib json;
    rule = rule lib json;
    start_delta = linear_start_delta lib json;
    range = range lib json;
    resolution = tick_resolution lib json;
    unit = unit lib json;
    fixed_origin = is_text (definition_at lib json "origin");
    origin = origin lib json;
    fields = array_in lib (definition_at lib json "struct");
    table_id = table_id lib json;
    value_index = value_index lib json;
    rate = object_in lib (member lib json "signalRate");
  }

  unfoldable pub apply : lib.Json → Operation lib → lib.Json
  unfolding set_constant_rule set_data_type set_endian extra_metadata set_linear_rule set_origin
      set_range add_struct_field set_table tcp_signal_rate set_tick_resolution set_unit
  apply json constant_ruled = set_constant_rule lib json
  apply json (typed type) = set_data_type lib json type
  apply json (endianness order) = set_endian lib json order
  apply json (extra key value) = extra_metadata lib json key value
  apply json (linear_ruled start delta) = set_linear_rule lib json start delta
  apply json (from_origin o) = set_origin lib json o
  apply json (in_range low high) = set_range lib json low high
  apply json (field v) = add_struct_field lib json v
  apply json (in_table id) = set_table lib json id
  apply json (rated v) = tcp_signal_rate lib json v
  apply json (resolved n d) = set_tick_resolution lib json n d
  apply json (measured u) = set_unit lib json u

  unfoldable pub apply_all : lib.Json → List (Operation lib) → lib.Json
  unfolding apply
  apply_all json [] = json
  apply_all json (op ∷ ops) = apply_all (apply json op) ops

  -- What is read of a new builder.
  unfoldable pub initial : String → View lib
  initial name = record {
    name = name;
    data_type = unknown_t;
    endian = "unknown";
    rule = explicit_rule;
    start_delta = (none, none);
    range = none;
    resolution = none;
    unit = none;
    fixed_origin = false;
    origin = "";
    fields = [];
    table_id = "";
    value_index = some 0;
    rate = none;
  }

  -- The operations on what is read. Numbers are read as words, an identifier of a unit as one of 32
  -- bits.
  unfoldable pub promised : View lib → Operation lib → View lib
  promised s constant_ruled = record s { rule = constant_rule; start_delta = (none, none) }
  promised s (typed type) = record s { data_type = type }
  promised s (endianness order) = record s { endian = order }
  promised s (extra key value) = s
  promised s (linear_ruled start delta) = record s {
    rule = linear_rule;
    start_delta = (some (start % 2 ^ 64), some (delta % 2 ^ 64));
  }
  promised s (from_origin o) = record s { origin = (if s.fixed_origin then s.origin else o) }
  promised s (in_range low high) = record s { range = some (low, high) }
  promised s (field v) = record s { fields = s.fields ++ v ∷ [] }
  promised s (in_table id) = record s { table_id = id }
  promised s (rated v) = record s { rate = object_in lib (some v) }
  promised s (resolved n d) = record s { resolution = some (n % 2 ^ 64, d % 2 ^ 64) }
  promised s (measured u) = record s { unit = some (record u { id = u.id % 2 ^ 32 }) }

  unfoldable pub promised_all : View lib → List (Operation lib) → View lib
  unfolding promised
  promised_all s [] = s
  promised_all s (op ∷ ops) = promised_all (promised s op) ops
