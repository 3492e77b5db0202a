-- ===== src/Metadata/Refinement/Start.antt =====
-- What the constructors of the builder in src/metadata_builder.cpp start from.
use Prim.Native.String.{String}
use ws_streaming.Prelude.{◌≡◌, ap, ◌∙◌, some, none, if◌then◌else◌, true, List, [], ◌∷◌}
use ws_streaming.Signals.Ids.{same_id}
use ws_streaming.Signals.Metadata.{explicit_rule}
use ws_streaming.Metadata.Document.{Library, IsLibrary}
use ws_streaming.Metadata.Read.{
  member, string_or, read_range, read_resolution, read_unit, object_in, integer_in,
}
use ws_streaming.Metadata.Read.Sizes.{array_in}
use ws_streaming.Metadata.Build.{object, metadata_builder}
use ws_streaming.Metadata.Build.Slots.{IsBuilder, slots, replaced}
use ws_streaming.Metadata.Build.Objects.{object_is, member-object, member-empty, string_or-text}
use ws_streaming.Metadata.Build.Assignments.{definition_at-IsBuilder, interpretation_at-IsBuilder}
use ws_streaming.Metadata.Refinement.{view, initial, is_text}
use ws_streaming.Metadata.Refinement.Views.{view_of, view-slots}

module _ (lib : Library) (laws : IsLibrary lib) where
  pub object_contains :
      (key : String) (v : lib.Json) (fields : List (String × lib.Json)) (key' : String)
      → lib.contains (object lib ((key, v) ∷ fields)) key'
        ≡ (if same_id key key' then true else lib.contains (object lib fields) key')
  unfolding object
  object_contains key v fields key' =
      laws.set_contains (object lib fields) key v key' (object_is lib laws fields)

  pub object_at :
      (key : String) (v : lib.Json) (fields : List (String × lib.Json)) (key' : String)
      → lib.at (object lib ((key, v) ∷ fields)) key'
        ≡ (if same_id key key' then v else lib.at (object lib fields) key')
  unfolding object
  object_at key v fields key' =
      laws.set_at (object lib fields) key v key' (object_is lib laws fields)

  pub metadata_builder-IsBuilder : (name : String) → IsBuilder lib (metadata_builder lib name)
  unfolding metadata_builder
  metadata_builder-IsBuilder name = record {
    object_is = simp (object_is lib laws);
    definition_in = simp object_contains;
    definition_is = simp (object_at, object_is lib laws);
    interpretation_in = simp object_contains;
    interpretation_is = simp (object_at, object_is lib laws);
  }

  -- The objects of the definition and of the interpretation.
  initial_definition : String → lib.Json
  initial_definition name =
      object lib (("name", lib.text name) ∷ ("rule", lib.text explicit_rule) ∷ [])

  initial_interpretation : String → lib.Json
  initial_interpretation name = object lib (
      ("sig_name", lib.text name)
      ∷ ("sig_desc", lib.text "")
      ∷ ("desc_name", lib.text name)
      ∷ ("rule", object lib (("type", lib.integer 3) ∷ ("parameters", lib.null) ∷ []))
      ∷ [])

  metadata_builder-definition :
      (name : String) → lib.at (metadata_builder lib name) "definition" ≡ initial_definition name
  unfolding metadata_builder initial_definition
  metadata_builder-definition name = simp object_at

  metadata_builder-interpretation :
      (name : String)
      → lib.at (metadata_builder lib name) "interpretation" ≡ initial_interpretation name
  unfolding metadata_builder initial_interpretation
  metadata_builder-interpretation name = simp object_at

  metadata_builder-root :
      (name : String)
      → (member lib (metadata_builder lib name) "tableId" ≡ none)
        × (member lib (metadata_builder lib name) "signalRate" ≡ none)
        × (member lib (metadata_builder lib name) "valueIndex" ≡ some (lib.integer 0))
  unfolding metadata_builder replaced
  metadata_builder-root name = (
    simp (member-object lib laws, member-empty lib laws, replaced),
    simp (member-object lib laws, member-empty lib laws, replaced),
    simp (member-object lib laws, replaced),
  )

  slots-metadata_builder :
      (name : String)
      → slots lib (metadata_builder lib name) ≡ record {
        definition = member lib (initial_definition name);
        interpretation = member lib (initial_interpretation name);
        table_id = none;
        value_index = some (lib.integer 0);
        signal_rate = none;
      }
  unfolding slots
  slots-metadata_builder name =
      let h = metadata_builder-IsBuilder name in
      let (t, r, v) = metadata_builder-root name in
      cc (
        definition_at-IsBuilder lib laws (metadata_builder lib name) h,
        interpretation_at-IsBuilder lib laws (metadata_builder lib name) h,
        metadata_builder-definition name,
        metadata_builder-interpretation name,
        t,
        r,
        v,
      )

  pub view-metadata_builder :
      (name : String) → view lib (metadata_builder lib name) ≡ initial lib name
  unfolding view_of replaced string_or is_text array_in integer_in read_range read_resolution
      read_unit object_in initial_definition initial_interpretation initial
  view-metadata_builder name =
      view-slots lib (metadata_builder lib name)
      ∙ ap (view_of lib) (slots-metadata_builder name)
      ∙ simp (
        view_of,
        initial_definition,
        initial_interpretation,
        member-object lib laws,
        member-empty lib laws,
        replaced,
        string_or-text lib laws,
        laws.integer_is,
        laws.integer_value,
        integer_in,
      )
