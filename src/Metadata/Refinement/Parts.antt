-- ===== src/Metadata/Refinement/Parts.antt =====
-- The operations of src/metadata_builder.cpp that add to an object or an array keep their promises:
-- additional metadata and the fields of a structure.
use Prim.Native.String.{String}
use ws_streaming.Prelude.{
  ◌≡◌, refl, ap, ◌∙◌, some, ◌&&◌, Bool-cases, true, false, inl, inr, List, [], ◌∷◌, ◌++◌, arith,
}
use ws_streaming.Signals.Ids.{same_id}
use ws_streaming.Metadata.Document.{Library, IsLibrary}
use ws_streaming.Metadata.Read.{member}
use ws_streaming.Metadata.Read.Sizes.{array_in}
use ws_streaming.Metadata.Build.{
  set_definition, set_interpretation, with_object, extra_metadata, add_struct_field,
}
use ws_streaming.Metadata.Build.Slots.{
  IsBuilder, slots, replaced, member-set, set_definition-IsBuilder, interpretation-IsBuilder,
}
use ws_streaming.Metadata.Build.Assignments.{
  slots-set_definition, slots-set_interpretation, slots-interpretation, definition_at-IsBuilder,
  interpretation_at-IsBuilder,
}
use ws_streaming.Metadata.Refinement.{View, view, promised, apply, extra, field}
use ws_streaming.Metadata.Refinement.Views.{view_of, view-slots}

module _ (lib : Library) (laws : IsLibrary lib) where
  pub with_object-IsObject :
      (json : lib.Json) (key : String)
      → lib.is_object json ≡ true
      → lib.is_object (with_object lib json key) ≡ true
  unfolding with_object
  with_object-IsObject json key h =
      elim (Bool-cases (lib.contains json key && lib.is_object (lib.at json key))) [
        | inl e ↦ rw e h
        | inr e ↦ rw e (laws.set_is json key lib.empty_object h)
      ]

  interpretation_slots :
      (json : lib.Json)
      → IsBuilder lib json
      → (slots lib json).interpretation ≡ member lib (lib.at json "interpretation")
  unfolding slots
  interpretation_slots json h = interpretation_at-IsBuilder lib laws json h

  -- A field beside the one that is made an object.
  other :
      (json : lib.Json) (key : String)
      → lib.is_object json ≡ true
      → same_id "metadata" key ≡ false
      → member lib (with_object lib json "metadata") key ≡ member lib json key
  unfolding with_object replaced
  other json key h e =
      elim (Bool-cases (lib.contains json "metadata" && lib.is_object (lib.at json "metadata"))) [
        | inl t ↦ rw t refl
        | inr t ↦ rw (t, member-set lib laws json "metadata" lib.empty_object key h, e) refl
      ]

  interpreted :
      (json : lib.Json)
      → IsBuilder lib json
      → (key : String) → same_id "metadata" key ≡ false
      → member lib (with_object lib (lib.at json "interpretation") "metadata") key
        ≡ (slots lib json).interpretation key
  interpreted json h key e =
      rw (interpretation_slots json h)
        (other (lib.at json "interpretation") key h.interpretation_is e)

  -- What is stored beside the fields that the accessors look up.
  beside :
      (json d : lib.Json) (v : lib.Json)
      → IsBuilder lib json
      → lib.is_object d ≡ true
      → member lib d "rule" ≡ (slots lib json).interpretation "rule"
      → member lib d "unit" ≡ (slots lib json).interpretation "unit"
      → member lib d "origin" ≡ (slots lib json).interpretation "origin"
      → view lib (set_interpretation lib (lib.set json "interpretation" d) "metadata" v)
        ≡ view lib json
  unfolding view_of replaced
  beside json d v h hd r u o =
      let h1 = interpretation-IsBuilder lib laws json d h hd in
      view-slots lib (set_interpretation lib (lib.set json "interpretation" d) "metadata" v)
      ∙ simp (
        slots-set_interpretation lib laws (lib.set json "interpretation" d) "metadata" v h1,
        slots-interpretation lib laws json d h hd,
        view_of,
        replaced,
        view-slots,
        r,
        u,
        o,
      )

  pub extra_lem :
      (json : lib.Json) (key value : String)
      → IsBuilder lib json
      → view lib (apply lib json (extra key value)) ≡ promised lib (view lib json) (extra key value)
  unfolding apply promised extra_metadata
  extra_lem json key value h =
      let i = lib.at json "interpretation" in
      let d = with_object lib i "metadata" in
      let ready = lib.set json "interpretation" d in
      let same = interpreted json h in
      beside json d
        (lib.set (lib.at (lib.at ready "interpretation") "metadata") key (lib.text value)) h
        (with_object-IsObject i "metadata" h.interpretation_is) (same "rule" refl)
        (same "unit" refl) (same "origin" refl)

  -- The array of the fields, where there is one.
  struct_of :
      (json : lib.Json)
      → IsBuilder lib json
      → (lib.contains (lib.at json "definition") "struct"
          && lib.is_array (lib.at (lib.at json "definition") "struct"))
        ≡ true
      → lib.elements (lib.at (lib.at json "definition") "struct")
        ≡ array_in lib ((slots lib json).definition "struct")
  unfolding slots array_in member
  struct_of json h e = rw (definition_at-IsBuilder lib laws json h) (ground arith)

  no_struct :
      (json : lib.Json)
      → IsBuilder lib json
      → (lib.contains (lib.at json "definition") "struct"
          && lib.is_array (lib.at (lib.at json "definition") "struct"))
        ≡ false
      → array_in lib ((slots lib json).definition "struct") ≡ []
  unfolding slots array_in member
  no_struct json h e = rw (definition_at-IsBuilder lib laws json h) (ground arith)

  array_in-array : (vs : List lib.Json) → array_in lib (some (lib.array vs)) ≡ vs
  unfolding array_in
  array_in-array vs = rw (laws.array_is vs) (laws.array_elements vs)

  stored :
      (json : lib.Json) (vs : List lib.Json)
      → IsBuilder lib json
      → view lib (set_definition lib json "struct" (lib.array vs))
        ≡ record (view lib json) { fields = vs }
  unfolding view_of replaced
  stored json vs h =
      view-slots lib (set_definition lib json "struct" (lib.array vs))
      ∙ simp (
        slots-set_definition lib laws json "struct" (lib.array vs) h,
        view_of,
        replaced,
        view-slots,
        array_in-array,
      )

  viewed :
      (json : lib.Json)
      → (view lib json).fields ≡ array_in lib ((slots lib json).definition "struct")
  unfolding view_of
  viewed json = ap (λ (s : View lib). s.fields) (view-slots lib json)

  fresh_struct :
      (json : lib.Json)
      → IsBuilder lib json
      → lib.at (lib.at (set_definition lib json "struct" (lib.array [])) "definition") "struct"
        ≡ lib.array []
  unfolding set_definition
  fresh_struct json h =
      let d = lib.at json "definition" in
      let d' = lib.set d "struct" (lib.array []) in
      rw
        (
          laws.set_at json "definition" d' "definition" h.object_is,
          laws.set_at d "struct" (lib.array []) "struct" h.definition_is,
        )
        refl

  pub field_lem :
      (json v : lib.Json)
      → IsBuilder lib json
      → view lib (apply lib json (field v)) ≡ promised lib (view lib json) (field v)
  unfolding apply promised add_struct_field
  field_lem json v h =
      let d = lib.at json "definition" in
      let ready = set_definition lib json "struct" (lib.array []) in
      let h1 = set_definition-IsBuilder lib laws json "struct" (lib.array []) h in
      elim (Bool-cases (lib.contains d "struct" && lib.is_array (lib.at d "struct"))) [
        | inl e ↦ rw e (
            stored json (lib.elements (lib.at d "struct") ++ v ∷ []) h
            ∙ cc (struct_of json h e, viewed json))
        | inr e ↦
            rw (e, fresh_struct json h, laws.array_elements [])
              (stored ready (v ∷ []) h1 ∙ cc (stored json [] h, no_struct json h e, viewed json))
      ]
