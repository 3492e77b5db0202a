-- ===== src/Metadata/Refinement/Operations.antt =====
-- Each operation of src/metadata_builder.cpp that stores one value keeps its promise.
use Prim.Native.String.{String}
use ws_streaming.Prelude.{◌≡◌, ap, ◌∙◌, ℕ, Bool-cases, inl, inr, [], ◌∷◌, Option-cases}
use ws_streaming.Metadata.Document.{Library, IsLibrary}
use ws_streaming.Metadata.Read.{
  string_or, read_range, read_resolution, object_in, integer_or, real_or,
}
use ws_streaming.Metadata.Build.{
  object, set_data_type, set_endian, set_origin, set_range, set_tick_resolution, set_table,
  tcp_signal_rate,
}
use ws_streaming.Metadata.Build.Objects.{object_in-object, member-object, string_or-text}
use ws_streaming.Metadata.Build.Slots.{IsBuilder, slots, replaced}
use ws_streaming.Metadata.Build.Assignments.{
  slots-set_definition, slots-set_interpretation, slots-set_table_id, slots-set_signal_rate,
}
use ws_streaming.Metadata.Refinement.{
  view, is_text, promised, apply, typed, endianness, from_origin, in_range, resolved, in_table,
  rated,
}
use ws_streaming.Metadata.Refinement.Views.{view_of, view-slots}

module _ (lib : Library) (laws : IsLibrary lib) where
  pub typed_lem :
      (json : lib.Json) (type : String)
      → IsBuilder lib json
      → view lib (apply lib json (typed type)) ≡ promised lib (view lib json) (typed type)
  unfolding apply promised set_data_type view_of replaced slots
  typed_lem json type h =
      view-slots lib (set_data_type lib json type)
      ∙ ap (view_of lib) (slots-set_definition lib laws json "dataType" (lib.text type) h)
      ∙ simp (view_of, replaced, view-slots, string_or, laws.text_is, laws.text_value)

  pub endianness_lem :
      (json : lib.Json) (order : String)
      → IsBuilder lib json
      → view lib (apply lib json (endianness order))
        ≡ promised lib (view lib json) (endianness order)
  unfolding apply promised set_endian view_of replaced slots
  endianness_lem json order h =
      view-slots lib (set_endian lib json order)
      ∙ ap (view_of lib) (slots-set_definition lib laws json "endian" (lib.text order) h)
      ∙ simp (view_of, replaced, view-slots, string_or, laws.text_is, laws.text_value)

  pub in_table_lem :
      (json : lib.Json) (id : String)
      → IsBuilder lib json
      → view lib (apply lib json (in_table id)) ≡ promised lib (view lib json) (in_table id)
  unfolding apply promised set_table view_of replaced slots
  in_table_lem json id h =
      view-slots lib (set_table lib json id)
      ∙ ap (view_of lib) (slots-set_table_id lib laws json (lib.text id) h)
      ∙ simp (view_of, replaced, view-slots, string_or, laws.text_is, laws.text_value)

  pub rated_lem :
      (json : lib.Json) (v : lib.Json)
      → IsBuilder lib json
      → view lib (apply lib json (rated v)) ≡ promised lib (view lib json) (rated v)
  unfolding apply promised tcp_signal_rate view_of replaced slots
  rated_lem json v h =
      view-slots lib (tcp_signal_rate lib json v)
      ∙ ap (view_of lib) (slots-set_signal_rate lib laws json v h)
      ∙ simp (view_of, replaced, view-slots, object_in)

  pub in_range_lem :
      (json : lib.Json) (low high : lib.Real)
      → IsBuilder lib json
      → view lib (apply lib json (in_range low high))
        ≡ promised lib (view lib json) (in_range low high)
  unfolding apply promised set_range read_range real_or view_of replaced slots
  in_range_lem json low high h =
      view-slots lib (set_range lib json low high)
      ∙ ap (view_of lib) (
          slots-set_definition lib laws json "range"
            (object lib (("low", lib.real low) ∷ ("high", lib.real high) ∷ [])) h)
      ∙ simp (
        view_of,
        replaced,
        view-slots,
        object_in-object lib laws,
        member-object lib laws,
        read_range,
        real_or,
        laws.real_number,
        laws.real_value,
      )

  pub resolved_lem :
      (json : lib.Json) (n d : ℕ)
      → IsBuilder lib json
      → view lib (apply lib json (resolved n d)) ≡ promised lib (view lib json) (resolved n d)
  unfolding apply promised set_tick_resolution read_resolution integer_or view_of replaced slots
  resolved_lem json n d h =
      view-slots lib (set_tick_resolution lib json n d)
      ∙ ap (view_of lib) (
          slots-set_definition lib laws json "resolution"
            (object lib (("num", lib.unsigned n) ∷ ("denom", lib.unsigned d) ∷ [])) h)
      ∙ simp (
        view_of,
        replaced,
        view-slots,
        object_in-object lib laws,
        member-object lib laws,
        read_resolution,
        integer_or,
        laws.unsigned_is,
        laws.unsigned_value,
      )

  -- An origin in the definition stays.
  pub from_origin_lem :
      (json : lib.Json) (o : String)
      → IsBuilder lib json
      → view lib (apply lib json (from_origin o)) ≡ promised lib (view lib json) (from_origin o)
  unfolding apply promised set_origin view_of replaced slots string_or is_text
  from_origin_lem json o h =
      view-slots lib (set_origin lib json o)
      ∙ ap (view_of lib) (slots-set_interpretation lib laws json "origin" (lib.text o) h)
      ∙ elim (Option-cases ((slots lib json).definition "origin")) [
        | inl e ↦
            simp (view_of, replaced, view-slots, string_or-text lib laws, e, string_or, is_text)
        | inr (v, e) ↦ elim (Bool-cases (lib.is_string v)) [
          | inl b ↦
              simp
                (view_of, replaced, view-slots, string_or-text lib laws, e, string_or, is_text, b)
          | inr b ↦
              simp
                (view_of, replaced, view-slots, string_or-text lib laws, e, string_or, is_text, b)
        ]
      ]
