-- ===== src/Metadata/Build/Slots.antt =====
-- What the assignments of src/metadata_builder.cpp do to the fields that the accessors of
-- src/metadata.cpp look up.
use Prim.Native.String.{String}
use ws_streaming.Prelude.{
  ◌≡◌, refl, Bool-cases, true, false, inl, inr, Option, none, some, if◌then◌else◌,
}
use ws_streaming.Signals.Ids.{same_id}
use ws_streaming.Metadata.Document.{Library, IsLibrary}
use ws_streaming.Metadata.Read.{member, definition_at, interpretation_at}
use ws_streaming.Metadata.Build.{set_definition, set_interpretation, erase_definition}

-- A builder holds an object with an object for the definition and one for the interpretation.
pub record IsBuilder (lib : Library) (json : lib.Json) : Type 0 where
  pub object_is : lib.is_object json ≡ true
  pub definition_in : lib.contains json "definition" ≡ true
  pub definition_is : lib.is_object (lib.at json "definition") ≡ true
  pub interpretation_in : lib.contains json "interpretation" ≡ true
  pub interpretation_is : lib.is_object (lib.at json "interpretation") ≡ true

-- A map of fields with one of them replaced.
unfoldable pub replaced {ℓ} : {A : Type ℓ} → (String → A) → String → A → String → A
replaced f key a key' = if same_id key key' then a else f key'

-- The fields that the accessors look up.
pub record Slots (lib : Library) : Type 0 where
  pub definition : String → Option lib.Json
  pub interpretation : String → Option lib.Json
  pub table_id : Option lib.Json
  pub value_index : Option lib.Json
  pub signal_rate : Option lib.Json

unfoldable pub slots : (lib : Library) → lib.Json → Slots lib
slots lib json = record {
  definition = definition_at lib json;
  interpretation = interpretation_at lib json;
  table_id = member lib json "tableId";
  value_index = member lib json "valueIndex";
  signal_rate = member lib json "signalRate";
}

module _ (lib : Library) (laws : IsLibrary lib) where
  pub member-set :
      (json : lib.Json) (key : String) (v : lib.Json) (key' : String)
      → lib.is_object json ≡ true
      → member lib (lib.set json key v) key' ≡ replaced (member lib json) key (some v) key'
  unfolding member replaced
  member-set json key v key' h = elim (Bool-cases (same_id key key')) [
    | inl e ↦ rw (laws.set_contains json key v key' h, laws.set_at json key v key' h, e) refl
    | inr e ↦ rw (laws.set_contains json key v key' h, laws.set_at json key v key' h, e) refl
  ]

  pub member-erase :
      (json : lib.Json) (key key' : String)
      → lib.is_object json ≡ true
      → member lib (lib.erase json key) key' ≡ replaced (member lib json) key none key'
  unfolding member replaced
  member-erase json key key' h = elim (Bool-cases (same_id key key')) [
    | inl e ↦ rw (laws.erase_contains json key key' h, e) refl
    | inr e ↦ rw (laws.erase_contains json key key' h, laws.erase_at json key key' h e, e) refl
  ]

  -- A new object in the place of the definition, or of the interpretation, or another field.
  pub definition-IsBuilder :
      (json d : lib.Json)
      → IsBuilder lib json
      → lib.is_object d ≡ true
      → IsBuilder lib (lib.set json "definition" d)
  definition-IsBuilder json d h hd = record {
    object_is = laws.set_is json "definition" d h.object_is;
    definition_in = rw (laws.set_contains json "definition" d "definition" h.object_is) refl;
    definition_is = rw (laws.set_at json "definition" d "definition" h.object_is) hd;
    interpretation_in =
        rw (laws.set_contains json "definition" d "interpretation" h.object_is) h.interpretation_in;
    interpretation_is =
        rw (laws.set_at json "definition" d "interpretation" h.object_is) h.interpretation_is;
  }

  pub interpretation-IsBuilder :
      (json d : lib.Json)
      → IsBuilder lib json
      → lib.is_object d ≡ true
      → IsBuilder lib (lib.set json "interpretation" d)
  interpretation-IsBuilder json d h hd = record {
    object_is = laws.set_is json "interpretation" d h.object_is;
    definition_in =
        rw (laws.set_contains json "interpretation" d "definition" h.object_is) h.definition_in;
    definition_is =
        rw (laws.set_at json "interpretation" d "definition" h.object_is) h.definition_is;
    interpretation_in =
        rw (laws.set_contains json "interpretation" d "interpretation" h.object_is) refl;
    interpretation_is = rw (laws.set_at json "interpretation" d "interpretation" h.object_is) hd;
  }

  pub root-IsBuilder :
      (json : lib.Json) (key : String) (v : lib.Json)
      → IsBuilder lib json
      → same_id key "definition" ≡ false
      → same_id key "interpretation" ≡ false
      → IsBuilder lib (lib.set json key v)
  root-IsBuilder json key v h hd hi = record {
    object_is = laws.set_is json key v h.object_is;
    definition_in = rw (laws.set_contains json key v "definition" h.object_is, hd) h.definition_in;
    definition_is = rw (laws.set_at json key v "definition" h.object_is, hd) h.definition_is;
    interpretation_in =
        rw (laws.set_contains json key v "interpretation" h.object_is, hi) h.interpretation_in;
    interpretation_is =
        rw (laws.set_at json key v "interpretation" h.object_is, hi) h.interpretation_is;
  }

  pub set_definition-IsBuilder :
      (json : lib.Json) (key : String) (v : lib.Json)
      → IsBuilder lib json
      → IsBuilder lib (set_definition lib json key v)
  unfolding set_definition
  set_definition-IsBuilder json key v h =
      definition-IsBuilder json (lib.set (lib.at json "definition") key v) h
        (laws.set_is (lib.at json "definition") key v h.definition_is)

  pub erase_definition-IsBuilder :
      (json : lib.Json) (key : String)
      → IsBuilder lib json
      → IsBuilder lib (erase_definition lib json key)
  unfolding erase_definition
  erase_definition-IsBuilder json key h =
      definition-IsBuilder json (lib.erase (lib.at json "definition") key) h
        (laws.erase_is (lib.at json "definition") key h.definition_is)

  pub set_interpretation-IsBuilder :
      (json : lib.Json) (key : String) (v : lib.Json)
      → IsBuilder lib json
      → IsBuilder lib (set_interpretation lib json key v)
  unfolding set_interpretation
  set_interpretation-IsBuilder json key v h =
      interpretation-IsBuilder json (lib.set (lib.at json "interpretation") key v) h
        (laws.set_is (lib.at json "interpretation") key v h.interpretation_is)
