-- ===== src/Metadata/Build.antt =====
-- The builder of a signal's metadata, src/metadata_builder.cpp, as functions of the JSON value that
-- it holds. The fields of an initializer list are stored from its last to its first.
pub mod Objects
pub mod Slots
pub mod Assignments
use Prim.Native.String.{String}
use ws_streaming.Prelude.{
  ℕ, ◌+◌, ◌-◌, ◌%◌, ◌^◌, List, [], ◌∷◌, ◌++◌, not, ◌&&◌, ltb, if◌then◌else◌, ◌==◌,
}
use ws_streaming.Signals.Metadata.{linear_rule, explicit_rule}
use ws_streaming.Metadata.Document.{Library}
use ws_streaming.Metadata.Read.{SignalUnit}

abbrev pub constant_rule : String
constant_rule = "constant"

-- A word of 32 bits as a word of 64.
unfoldable pub sign_extend : ℕ → ℕ
sign_extend w = if ltb (w % 2 ^ 32) (2 ^ 31) then w % 2 ^ 32 else w % 2 ^ 32 + (2 ^ 64 - 2 ^ 32)

module _ (lib : Library) where
  unfoldable pub object : List (String × lib.Json) → lib.Json
  object [] = lib.empty_object
  object ((key, v) ∷ fields) = lib.set (object fields) key v

  -- Assignments to a field of the definition and of the interpretation.
  unfoldable pub set_definition : lib.Json → String → lib.Json → lib.Json
  set_definition json key v = lib.set json "definition" (lib.set (lib.at json "definition") key v)

  unfoldable pub set_interpretation : lib.Json → String → lib.Json → lib.Json
  set_interpretation json key v =
      lib.set json "interpretation" (lib.set (lib.at json "interpretation") key v)

  unfoldable pub erase_definition : lib.Json → String → lib.Json
  erase_definition json key = lib.set json "definition" (lib.erase (lib.at json "definition") key)

  unfoldable pub metadata_builder : String → lib.Json
  unfolding object
  metadata_builder name = object (
      ("definition", object (("name", lib.text name) ∷ ("rule", lib.text explicit_rule) ∷ []))
      ∷ (
        "interpretation",
        object (
            ("sig_name", lib.text name)
            ∷ ("sig_desc", lib.text "")
            ∷ ("desc_name", lib.text name)
            ∷ ("rule", object (("type", lib.integer 3) ∷ ("parameters", lib.null) ∷ []))
            ∷ []),
      )
      ∷ ("valueIndex", lib.integer 0)
      ∷ [])

  -- An object of the given name, made where there is none.
  unfoldable pub with_object : lib.Json → String → lib.Json
  with_object json key =
      if lib.contains json key && lib.is_object (lib.at json key)
      then json
      else lib.set json key lib.empty_object

  unfoldable pub builder_from_json : lib.Json → lib.Json
  unfolding with_object
  builder_from_json json =
      with_object (with_object (if lib.is_object json then json else lib.empty_object) "definition")
        "interpretation"

  unfoldable pub set_constant_rule : lib.Json → lib.Json
  unfolding object set_definition set_interpretation erase_definition
  set_constant_rule json =
      let ruled = set_definition json "rule" (lib.text constant_rule) in
      let erased = erase_definition ruled linear_rule in
      set_interpretation erased "rule"
        (object (("type", lib.integer 2) ∷ ("parameters", lib.braces) ∷ []))

  unfoldable pub set_data_type : lib.Json → String → lib.Json
  unfolding set_definition
  set_data_type json type = set_definition json "dataType" (lib.text type)

  unfoldable pub set_endian : lib.Json → String → lib.Json
  unfolding set_definition
  set_endian json endian = set_definition json "endian" (lib.text endian)

  unfoldable pub extra_metadata : lib.Json → String → String → lib.Json
  unfolding set_interpretation with_object
  extra_metadata json key value =
      let interpretation = with_object (lib.at json "interpretation") "metadata" in
      let ready = lib.set json "interpretation" interpretation in
      set_interpretation ready "metadata"
        (lib.set (lib.at (lib.at ready "interpretation") "metadata") key (lib.text value))

  -- The start and the delta are words of 64 bits; a start of 0 is left out of the definition.
  unfoldable pub set_linear_rule : lib.Json → ℕ → ℕ → lib.Json
  unfolding object set_definition set_interpretation
  set_linear_rule json start delta =
      let ruled = set_definition json "rule" (lib.text linear_rule) in
      let linear = set_definition ruled linear_rule (object (("delta", lib.integer delta) ∷ [])) in
      let started =
        set_definition linear linear_rule
          (lib.set (lib.at (lib.at linear "definition") linear_rule) "start" (lib.integer start)) in
      let defined = if not (start == 0) then started else linear in
      set_interpretation defined "rule" (
        object (
          ("type", lib.integer 1)
          ∷ (
            "parameters",
            object (("delta", lib.integer delta) ∷ ("start", lib.integer start) ∷ []),
          )
          ∷ []))

  unfoldable pub set_origin : lib.Json → String → lib.Json
  unfolding set_interpretation
  set_origin json origin = set_interpretation json "origin" (lib.text origin)

  unfoldable pub set_range : lib.Json → lib.Real → lib.Real → lib.Json
  unfolding object set_definition
  set_range json low high =
      set_definition json "range" (object (("low", lib.real low) ∷ ("high", lib.real high) ∷ []))

  -- A built field is appended to the array of fields, made where there is none.
  unfoldable pub add_struct_field : lib.Json → lib.Json → lib.Json
  unfolding set_definition
  add_struct_field json field =
      let definition = lib.at json "definition" in
      let ready =
        if lib.contains definition "struct" && lib.is_array (lib.at definition "struct")
        then json
        else set_definition json "struct" (lib.array []) in
      set_definition ready "struct"
        (lib.array (lib.elements (lib.at (lib.at ready "definition") "struct") ++ field ∷ []))

  unfoldable pub set_table : lib.Json → String → lib.Json
  set_table json id = lib.set json "tableId" (lib.text id)

  unfoldable pub tcp_signal_rate : lib.Json → lib.Json → lib.Json
  tcp_signal_rate json rate = lib.set json "signalRate" rate

  unfoldable pub set_tick_resolution : lib.Json → ℕ → ℕ → lib.Json
  unfolding object set_definition
  set_tick_resolution json numerator denominator =
      set_definition json "resolution"
        (object (("num", lib.unsigned numerator) ∷ ("denom", lib.unsigned denominator) ∷ []))

  unfoldable pub set_unit : lib.Json → SignalUnit → lib.Json
  unfolding object set_definition set_interpretation sign_extend
  set_unit json unit =
      let id = lib.integer (sign_extend unit.id) in
      let defined = set_definition json "unit" (
        object (
          ("unitId", id)
          ∷ ("quantity", lib.text unit.quantity)
          ∷ ("displayName", lib.text unit.symbol)
          ∷ [])) in
      set_interpretation defined "unit" (
        object (
          ("id", id)
          ∷ ("name", lib.text unit.name)
          ∷ ("quantity", lib.text unit.quantity)
          ∷ ("symbol", lib.text unit.symbol)
          ∷ []))
