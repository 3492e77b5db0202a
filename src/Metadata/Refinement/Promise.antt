-- ===== src/Metadata/Refinement/Promise.antt =====
-- The builder of src/metadata_builder.cpp against what it promises: the invariant of its JSON value,
-- single operations, sequences of them, and the size of a sample.
use Prim.Native.String.{String}
use ws_streaming.Prelude.{◌≡◌, refl, ap, ◌∙◌, ◌&&◌, ◌==◌, Bool-cases, inl, inr, List, [], ◌∷◌}
use ws_streaming.Signals.Metadata.{linear_rule}
use ws_streaming.Metadata.Document.{Library, IsLibrary}
use ws_streaming.Metadata.Read.{metadata}
use ws_streaming.Metadata.Build.{
  object, metadata_builder, builder_from_json, set_constant_rule, set_data_type, set_endian,
  extra_metadata, set_linear_rule, set_origin, set_range, add_struct_field, set_table,
  tcp_signal_rate, set_tick_resolution, set_unit,
}
use ws_streaming.Metadata.Build.Slots.{
  IsBuilder, set_definition-IsBuilder, set_interpretation-IsBuilder, erase_definition-IsBuilder,
  root-IsBuilder, interpretation-IsBuilder,
}
use ws_streaming.Metadata.Refinement.{
  View, Operation, initial, view, apply, apply_all, promised, promised_all, constant_ruled, typed,
  endianness, extra, linear_ruled, from_origin, in_range, field, in_table, rated, resolved,
  measured,
}
use ws_streaming.Metadata.Refinement.Operations.{
  typed_lem, endianness_lem, in_table_lem, rated_lem, in_range_lem, resolved_lem, from_origin_lem,
}
use ws_streaming.Metadata.Refinement.Rules.{constant_ruled_lem, linear_ruled_lem, measured_lem}
use ws_streaming.Metadata.Refinement.Parts.{with_object-IsObject, extra_lem, field_lem}
use ws_streaming.Metadata.Refinement.Start.{metadata_builder-IsBuilder, view-metadata_builder}
use ws_streaming.Metadata.Refinement.FromJson.{builder_from_json-IsBuilder, view-builder_from_json}

module _ (lib : Library) (laws : IsLibrary lib) where
  -- Every operation keeps what the builder holds in form.
  pub apply-IsBuilder :
      (json : lib.Json) (op : Operation lib)
      → IsBuilder lib json
      → IsBuilder lib (apply lib json op)
  unfolding apply set_constant_rule set_data_type set_endian extra_metadata set_linear_rule
      set_origin set_range add_struct_field set_table tcp_signal_rate set_tick_resolution set_unit
  apply-IsBuilder json constant_ruled h =
      set_interpretation-IsBuilder lib laws _ _ _
        (erase_definition-IsBuilder lib laws _ _ (set_definition-IsBuilder lib laws _ _ _ h))
  apply-IsBuilder json (typed type) h = set_definition-IsBuilder lib laws _ _ _ h
  apply-IsBuilder json (endianness order) h = set_definition-IsBuilder lib laws _ _ _ h
  apply-IsBuilder json (extra key value) h = set_interpretation-IsBuilder lib laws _ _ _ (
      interpretation-IsBuilder lib laws json _ h
        (with_object-IsObject lib laws _ "metadata" h.interpretation_is))
  apply-IsBuilder json (linear_ruled start delta) h =
      let h1 = set_definition-IsBuilder lib laws json "rule" (lib.text linear_rule) h in
      let h2 =
        set_definition-IsBuilder lib laws _ linear_rule
          (object lib (("delta", lib.integer delta) ∷ [])) h1 in
      elim (Bool-cases (start == 0)) [
        | inl e ↦ rw e (set_interpretation-IsBuilder lib laws _ _ _ h2)
        | inr e ↦ rw e (
            set_interpretation-IsBuilder lib laws _ _ _
              (set_definition-IsBuilder lib laws _ _ _ h2))
      ]
  apply-IsBuilder json (from_origin o) h = set_interpretation-IsBuilder lib laws _ _ _ h
  apply-IsBuilder json (in_range low high) h = set_definition-IsBuilder lib laws _ _ _ h
  apply-IsBuilder json (field v) h =
      let d = lib.at json "definition" in
      elim (Bool-cases (lib.contains d "struct" && lib.is_array (lib.at d "struct"))) [
        | inl e ↦ rw e (set_definition-IsBuilder lib laws _ _ _ h)
        | inr e ↦
            rw e
              (set_definition-IsBuilder lib laws _ _ _ (set_definition-IsBuilder lib laws _ _ _ h))
      ]
  apply-IsBuilder json (in_table id) h = root-IsBuilder lib laws _ _ _ h refl refl
  apply-IsBuilder json (rated v) h = root-IsBuilder lib laws _ _ _ h refl refl
  apply-IsBuilder json (resolved n d) h = set_definition-IsBuilder lib laws _ _ _ h
  apply-IsBuilder json (measured u) h =
      set_interpretation-IsBuilder lib laws _ _ _ (set_definition-IsBuilder lib laws _ _ _ h)

  pub view-apply :
      (json : lib.Json) (op : Operation lib)
      → IsBuilder lib json
      → view lib (apply lib json op) ≡ promised lib (view lib json) op
  view-apply json constant_ruled h = constant_ruled_lem lib laws json h
  view-apply json (typed type) h = typed_lem lib laws json type h
  view-apply json (endianness order) h = endianness_lem lib laws json order h
  view-apply json (extra key value) h = extra_lem lib laws json key value h
  view-apply json (linear_ruled start delta) h = linear_ruled_lem lib laws json start delta h
  view-apply json (from_origin o) h = from_origin_lem lib laws json o h
  view-apply json (in_range low high) h = in_range_lem lib laws json low high h
  view-apply json (field v) h = field_lem lib laws json v h
  view-apply json (in_table id) h = in_table_lem lib laws json id h
  view-apply json (rated v) h = rated_lem lib laws json v h
  view-apply json (resolved n d) h = resolved_lem lib laws json n d h
  view-apply json (measured u) h = measured_lem lib laws json u h

  pub view-apply_all :
      (json : lib.Json) (ops : List (Operation lib))
      → IsBuilder lib json
      → view lib (apply_all lib json ops) ≡ promised_all lib (view lib json) ops
  unfolding apply_all promised_all
  view-apply_all json [] h = refl
  view-apply_all json (op ∷ ops) h =
      view-apply_all (apply lib json op) ops (apply-IsBuilder json op h)
      ∙ ap (λ (s : View lib). promised_all lib s ops) (view-apply json op h)

  -- With a JSON library that reads what it has stored, a new builder with a name, after any
  -- sequence of its operations, holds JSON of which the accessors read what the sequence
  -- promises: each operation replaces the values that it is about (a field of a structure is
  -- appended to those before it), and the others stay as a new builder has them.
  pub view-build :
      (name : String) (ops : List (Operation lib))
      → view lib (apply_all lib (metadata_builder lib name) ops)
        ≡ promised_all lib (initial lib name) ops
  view-build name ops =
      view-apply_all (metadata_builder lib name) ops (metadata_builder-IsBuilder lib laws name)
      ∙ ap (λ (s : View lib). promised_all lib s ops) (view-metadata_builder lib laws name)

  -- With a JSON library that reads what it has stored, a builder made from any JSON value, after
  -- any sequence of its operations, holds JSON of which the accessors read what the sequence
  -- promises from what they read of the metadata made from that value.
  pub view-edit :
      (json : lib.Json) (ops : List (Operation lib))
      → view lib (apply_all lib (builder_from_json lib json) ops)
        ≡ promised_all lib (view lib (metadata lib json)) ops
  view-edit json ops =
      view-apply_all (builder_from_json lib json) ops (builder_from_json-IsBuilder lib laws json)
      ∙ ap (λ (s : View lib). promised_all lib s ops) (view-builder_from_json lib laws json)
