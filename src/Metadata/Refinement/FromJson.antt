-- ===== src/Metadata/Refinement/FromJson.antt =====
-- What the constructor of the builder from a JSON value in src/metadata_builder.cpp starts from.
use Prim.Native.String.{String}
use mathlib.Core.Path.{fun_ext}
use ws_streaming.Prelude.{
  ◌≡◌, refl, ap, ◌∙◌, sym, none, ◌&&◌, Bool-cases, true, false, inl, inr, arith,
}
use ws_streaming.Signals.Ids.{same_id, same_id_iff}
use ws_streaming.Metadata.Document.{Library, IsLibrary}
use ws_streaming.Metadata.Read.{
  metadata, definition_at, interpretation_at, member_of, member, object_in,
}
use ws_streaming.Metadata.Build.{with_object, builder_from_json}
use ws_streaming.Metadata.Build.Slots.{IsBuilder, slots, replaced, member-set}
use ws_streaming.Metadata.Refinement.{view}
use ws_streaming.Metadata.Refinement.Views.{view_of, view-slots}
use ws_streaming.Metadata.Refinement.Parts.{with_object-IsObject}

module _ (lib : Library) (laws : IsLibrary lib) where
  -- A part that is no object reads as an empty one.
  absent :
      (json : lib.Json) (part key : String)
      → (lib.contains json part && lib.is_object (lib.at json part)) ≡ false
      → none ≡ member_of lib (object_in lib (member lib json part)) key
  unfolding member object_in member_of
  absent json part key e = ground arith

  empty :
      (json : lib.Json) (part key : String)
      → lib.is_object json ≡ true
      → member_of lib (object_in lib (member lib (lib.set json part lib.empty_object) part)) key
        ≡ none
  unfolding member object_in member_of
  empty json part key h =
      rw
        (
          laws.set_contains json part lib.empty_object part h,
          laws.set_at json part lib.empty_object part h,
          (same_id_iff part part).1 refl,
          laws.empty_is,
          laws.empty_contains key,
        )
        refl

  made-definition :
      (json : lib.Json)
      → lib.is_object json ≡ true
      → (lib.contains json "definition" && lib.is_object (lib.at json "definition")) ≡ false
      → slots lib (lib.set json "definition" lib.empty_object) ≡ slots lib json
  unfolding slots definition_at interpretation_at replaced
  made-definition json h e = cc (
    fun_ext (λ key. empty json "definition" key h ∙ absent json "definition" key e),
    member-set lib laws json "definition" lib.empty_object "interpretation" h,
    member-set lib laws json "definition" lib.empty_object "tableId" h,
    member-set lib laws json "definition" lib.empty_object "valueIndex" h,
    member-set lib laws json "definition" lib.empty_object "signalRate" h,
  )

  made-interpretation :
      (json : lib.Json)
      → lib.is_object json ≡ true
      → (lib.contains json "interpretation" && lib.is_object (lib.at json "interpretation")) ≡ false
      → slots lib (lib.set json "interpretation" lib.empty_object) ≡ slots lib json
  unfolding slots definition_at interpretation_at replaced
  made-interpretation json h e = cc (
    fun_ext (λ key. empty json "interpretation" key h ∙ absent json "interpretation" key e),
    member-set lib laws json "interpretation" lib.empty_object "definition" h,
    member-set lib laws json "interpretation" lib.empty_object "tableId" h,
    member-set lib laws json "interpretation" lib.empty_object "valueIndex" h,
    member-set lib laws json "interpretation" lib.empty_object "signalRate" h,
  )

  slots-with_object :
      (json : lib.Json)
      → lib.is_object json ≡ true
      → (slots lib (with_object lib json "definition") ≡ slots lib json)
        × (slots lib (with_object lib json "interpretation") ≡ slots lib json)
  unfolding with_object
  slots-with_object json h = (
    elim (Bool-cases (lib.contains json "definition" && lib.is_object (lib.at json "definition"))) [
      | inl e ↦ rw e refl
      | inr e ↦ rw e (made-definition json h e)
    ],
    elim (Bool-cases
        (lib.contains json "interpretation" && lib.is_object (lib.at json "interpretation"))) [
          | inl e ↦ rw e refl
          | inr e ↦ rw e (made-interpretation json h e)
        ],
  )

  metadata-IsObject : (json : lib.Json) → lib.is_object (metadata lib json) ≡ true
  unfolding metadata
  metadata-IsObject json = elim (Bool-cases (lib.is_object json)) [
    | inl e ↦ rw e e
    | inr e ↦ rw e laws.empty_is
  ]

  pub view-builder_from_json :
      (json : lib.Json) → view lib (builder_from_json lib json) ≡ view lib (metadata lib json)
  unfolding builder_from_json metadata
  view-builder_from_json json =
      let m = metadata lib json in
      let h = metadata-IsObject json in
      let d = with_object lib m "definition" in
      let hd = with_object-IsObject lib laws m "definition" h in
      view-slots lib (builder_from_json lib json)
      ∙ ap (view_of lib) ((slots-with_object d hd).1 ∙ (slots-with_object m h).0)
      ∙ sym (view-slots lib m)

  with_object_has :
      (json : lib.Json) (part : String)
      → lib.is_object json ≡ true
      → (lib.contains (with_object lib json part) part ≡ true)
        × (lib.is_object (lib.at (with_object lib json part) part) ≡ true)
  unfolding with_object
  with_object_has json part h =
      elim (Bool-cases (lib.contains json part && lib.is_object (lib.at json part))) [
        | inl e ↦ rw e (ground arith, ground arith)
        | inr e ↦
            rw
              (
                e,
                laws.set_contains json part lib.empty_object part h,
                laws.set_at json part lib.empty_object part h,
                (same_id_iff part part).1 refl,
              )
              (refl, laws.empty_is)
      ]

  with_object_other :
      (json : lib.Json) (part other : String)
      → lib.is_object json ≡ true
      → same_id part other ≡ false
      → (lib.contains (with_object lib json part) other ≡ lib.contains json other)
        × (lib.at (with_object lib json part) other ≡ lib.at json other)
  unfolding with_object
  with_object_other json part other h d =
      elim (Bool-cases (lib.contains json part && lib.is_object (lib.at json part))) [
        | inl e ↦ rw e (refl, refl)
        | inr e ↦
            rw
              (
                e,
                laws.set_contains json part lib.empty_object other h,
                laws.set_at json part lib.empty_object other h,
                d,
              )
              (refl, refl)
      ]

  pub builder_from_json-IsBuilder : (json : lib.Json) → IsBuilder lib (builder_from_json lib json)
  unfolding builder_from_json metadata
  builder_from_json-IsBuilder json =
      let m = metadata lib json in
      let h = metadata-IsObject json in
      let d = with_object lib m "definition" in
      let hd = with_object-IsObject lib laws m "definition" h in
      let (c, o) = with_object_has m "definition" h in
      let (c', o') = with_object_has d "interpretation" hd in
      let (kc, ka) = with_object_other d "interpretation" "definition" hd refl in
      record {
        object_is = with_object-IsObject lib laws d "interpretation" hd;
        definition_in = kc ∙ c;
        definition_is = ap lib.is_object ka ∙ o;
        interpretation_in = c';
        interpretation_is = o';
      }
