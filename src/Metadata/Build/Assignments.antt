-- ===== src/Metadata/Build/Assignments.antt =====
-- How each assignment of src/metadata_builder.cpp changes the fields that the accessors look up.
use Prim.Native.String.{String}
use ws_streaming.Prelude.{◌≡◌, refl, ◌∙◌, some, none, true, false}
use mathlib.Core.Path.{fun_ext}
use ws_streaming.Signals.Ids.{same_id}
use ws_streaming.Metadata.Document.{Library, IsLibrary}
use ws_streaming.Metadata.Read.{member, object_in, member_of, definition_at, interpretation_at}
use ws_streaming.Metadata.Build.{set_definition, set_interpretation, erase_definition}
use ws_streaming.Metadata.Build.Slots.{
  IsBuilder, slots, replaced, member-set, member-erase, definition-IsBuilder,
  interpretation-IsBuilder, root-IsBuilder,
}

module _ (lib : Library) (laws : IsLibrary lib) where
  -- The fields of a builder's definition and interpretation.
  pub definition_at-IsBuilder :
      (json : lib.Json)
      → IsBuilder lib json
      → definition_at lib json ≡ member lib (lib.at json "definition")
  unfolding definition_at member object_in member_of
  definition_at-IsBuilder json h = fun_ext λ key. rw (h.definition_in, h.definition_is) refl

  pub interpretation_at-IsBuilder :
      (json : lib.Json)
      → IsBuilder lib json
      → interpretation_at lib json ≡ member lib (lib.at json "interpretation")
  unfolding interpretation_at member object_in member_of
  interpretation_at-IsBuilder json h =
      fun_ext λ key. rw (h.interpretation_in, h.interpretation_is) refl

  pub slots-definition :
      (json d : lib.Json)
      → IsBuilder lib json
      → lib.is_object d ≡ true
      → slots lib (lib.set json "definition" d)
        ≡ record (slots lib json) { definition = member lib d }
  unfolding slots replaced
  slots-definition json d h hd = cc (
    definition_at-IsBuilder (lib.set json "definition" d)
        (definition-IsBuilder lib laws json d h hd),
    interpretation_at-IsBuilder (lib.set json "definition" d)
        (definition-IsBuilder lib laws json d h hd),
    interpretation_at-IsBuilder json h,
    laws.set_at json "definition" d "definition" h.object_is,
    laws.set_at json "definition" d "interpretation" h.object_is,
    member-set lib laws json "definition" d "tableId" h.object_is,
    member-set lib laws json "definition" d "valueIndex" h.object_is,
    member-set lib laws json "definition" d "signalRate" h.object_is,
  )

  pub slots-interpretation :
      (json d : lib.Json)
      → IsBuilder lib json
      → lib.is_object d ≡ true
      → slots lib (lib.set json "interpretation" d)
        ≡ record (slots lib json) { interpretation = member lib d }
  unfolding slots replaced
  slots-interpretation json d h hd = cc (
    definition_at-IsBuilder (lib.set json "interpretation" d)
        (interpretation-IsBuilder lib laws json d h hd),
    interpretation_at-IsBuilder (lib.set json "interpretation" d)
        (interpretation-IsBuilder lib laws json d h hd),
    definition_at-IsBuilder json h,
    laws.set_at json "interpretation" d "definition" h.object_is,
    laws.set_at json "interpretation" d "interpretation" h.object_is,
    member-set lib laws json "interpretation" d "tableId" h.object_is,
    member-set lib laws json "interpretation" d "valueIndex" h.object_is,
    member-set lib laws json "interpretation" d "signalRate" h.object_is,
  )

  pub slots-set_definition :
      (json : lib.Json) (key : String) (v : lib.Json)
      → IsBuilder lib json
      → slots lib (set_definition lib json key v)
        ≡ record (slots lib json) { definition = replaced (slots lib json).definition key (some v) }
  unfolding set_definition slots
  slots-set_definition json key v h =
      let d = lib.at json "definition" in
      cc (
        slots-definition json (lib.set d key v) h (laws.set_is d key v h.definition_is),
        fun_ext (λ key'. member-set lib laws d key v key' h.definition_is),
        definition_at-IsBuilder json h,
      )

  pub slots-erase_definition :
      (json : lib.Json) (key : String)
      → IsBuilder lib json
      → slots lib (erase_definition lib json key)
        ≡ record (slots lib json) { definition = replaced (slots lib json).definition key none }
  unfolding erase_definition slots
  slots-erase_definition json key h =
      let d = lib.at json "definition" in
      cc (
        slots-definition json (lib.erase d key) h (laws.erase_is d key h.definition_is),
        fun_ext (λ key'. member-erase lib laws d key key' h.definition_is),
        definition_at-IsBuilder json h,
      )

  pub slots-set_interpretation :
      (json : lib.Json) (key : String) (v : lib.Json)
      → IsBuilder lib json
      → slots lib (set_interpretation lib json key v) ≡ record (slots lib json) {
        interpretation = replaced (slots lib json).interpretation key (some v);
      }
  unfolding set_interpretation slots
  slots-set_interpretation json key v h =
      let d = lib.at json "interpretation" in
      cc (
        slots-interpretation json (lib.set d key v) h (laws.set_is d key v h.interpretation_is),
        fun_ext (λ key'. member-set lib laws d key v key' h.interpretation_is),
        interpretation_at-IsBuilder json h,
      )

  -- An assignment to a field beside the two.
  set-definition_at :
      (json : lib.Json) (key : String) (v : lib.Json)
      → IsBuilder lib json
      → same_id key "definition" ≡ false
      → same_id key "interpretation" ≡ false
      → definition_at lib (lib.set json key v) ≡ definition_at lib json
  set-definition_at json key v h hd hi =
      definition_at-IsBuilder (lib.set json key v) (root-IsBuilder lib laws json key v h hd hi)
      ∙ rw (laws.set_at json key v "definition" h.object_is, hd, definition_at-IsBuilder json h)
          refl

  set-interpretation_at :
      (json : lib.Json) (key : String) (v : lib.Json)
      → IsBuilder lib json
      → same_id key "definition" ≡ false
      → same_id key "interpretation" ≡ false
      → interpretation_at lib (lib.set json key v) ≡ interpretation_at lib json
  set-interpretation_at json key v h hd hi =
      interpretation_at-IsBuilder (lib.set json key v) (root-IsBuilder lib laws json key v h hd hi)
      ∙ rw
          (
            laws.set_at json key v "interpretation" h.object_is,
            hi,
            interpretation_at-IsBuilder json h,
          )
          refl

  pub slots-set_table_id :
      (json v : lib.Json)
      → IsBuilder lib json
      → slots lib (lib.set json "tableId" v) ≡ record (slots lib json) { table_id = some v }
  unfolding slots replaced
  slots-set_table_id json v h = cc (
    set-definition_at json "tableId" v h refl refl,
    set-interpretation_at json "tableId" v h refl refl,
    member-set lib laws json "tableId" v "tableId" h.object_is,
    member-set lib laws json "tableId" v "valueIndex" h.object_is,
    member-set lib laws json "tableId" v "signalRate" h.object_is,
  )

  pub slots-set_signal_rate :
      (json v : lib.Json)
      → IsBuilder lib json
      → slots lib (lib.set json "signalRate" v) ≡ record (slots lib json) { signal_rate = some v }
  unfolding slots replaced
  slots-set_signal_rate json v h = cc (
    set-definition_at json "signalRate" v h refl refl,
    set-interpretation_at json "signalRate" v h refl refl,
    member-set lib laws json "signalRate" v "tableId" h.object_is,
    member-set lib laws json "signalRate" v "valueIndex" h.object_is,
    member-set lib laws json "signalRate" v "signalRate" h.object_is,
  )
