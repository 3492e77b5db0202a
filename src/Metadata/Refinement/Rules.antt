-- ===== src/Metadata/Refinement/Rules.antt =====
-- The operations of src/metadata_builder.cpp that store several values keep their promises: the
-- rules and the unit.
use ws_streaming.Prelude.{◌≡◌, ap, ◌∙◌, ◌%◌, ◌^◌, ℕ, ◌==◌, Bool-cases, inl, inr, [], ◌∷◌, arith}
use ws_streaming.Signals.Metadata.{linear_rule}
use ws_streaming.Metadata.Document.{Library, IsLibrary}
use ws_streaming.Metadata.Read.{
  SignalUnit, read_linear, linear_parameters, first_object, member_of, read_unit, interpreted_unit,
  integer_or, number_in,
}
use ws_streaming.Metadata.Build.{
  object, sign_extend, constant_rule, set_definition, set_constant_rule, set_linear_rule, set_unit,
  erase_definition,
}
use ws_streaming.Metadata.Build.Objects.{object_in-object, member-object, string_or-text}
use ws_streaming.Metadata.Build.Slots.{
  IsBuilder, replaced, set_definition-IsBuilder, erase_definition-IsBuilder,
}
use ws_streaming.Metadata.Build.Assignments.{
  slots-set_definition, slots-erase_definition, slots-set_interpretation,
}
use ws_streaming.Metadata.Refinement.{view, promised, apply, constant_ruled, linear_ruled, measured}
use ws_streaming.Metadata.Refinement.Views.{view_of, view-slots}

sign_extend_lem : (w : ℕ) → sign_extend w % 2 ^ 64 % 2 ^ 32 ≡ w % 2 ^ 32
unfolding sign_extend
sign_extend_lem w = ground arith

module _ (lib : Library) (laws : IsLibrary lib) where
  pub constant_ruled_lem :
      (json : lib.Json)
      → IsBuilder lib json
      → view lib (apply lib json constant_ruled) ≡ promised lib (view lib json) constant_ruled
  unfolding apply promised set_constant_rule view_of replaced
  constant_ruled_lem json h =
      let v = lib.text constant_rule in
      let rules = object lib (("type", lib.integer 2) ∷ ("parameters", lib.braces) ∷ []) in
      let ruled = set_definition lib json "rule" v in
      let h1 = set_definition-IsBuilder lib laws json "rule" v h in
      let h2 = erase_definition-IsBuilder lib laws ruled linear_rule h1 in
      view-slots lib (set_constant_rule lib json)
      ∙ ap (view_of lib) (
          slots-set_interpretation lib laws (erase_definition lib ruled linear_rule) "rule" rules
            h2)
      ∙ simp (
        slots-erase_definition lib laws ruled linear_rule h1,
        slots-set_definition lib laws json "rule" v h,
        view_of,
        replaced,
        view-slots,
        string_or-text lib laws,
      )

  pub measured_lem :
      (json : lib.Json) (u : SignalUnit)
      → IsBuilder lib json
      → view lib (apply lib json (measured u)) ≡ promised lib (view lib json) (measured u)
  unfolding apply promised set_unit view_of replaced read_unit interpreted_unit integer_or
  measured_lem json u h =
      let id = lib.integer (sign_extend u.id) in
      let defined = object lib (
        ("unitId", id)
        ∷ ("quantity", lib.text u.quantity)
        ∷ ("displayName", lib.text u.symbol)
        ∷ []) in
      let interpreted = object lib (
        ("id", id)
        ∷ ("name", lib.text u.name)
        ∷ ("quantity", lib.text u.quantity)
        ∷ ("symbol", lib.text u.symbol)
        ∷ []) in
      let h1 = set_definition-IsBuilder lib laws json "unit" defined h in
      view-slots lib (set_unit lib json u)
      ∙ ap (view_of lib) (
          slots-set_interpretation lib laws (set_definition lib json "unit" defined) "unit"
            interpreted h1)
      ∙ simp (
        slots-set_definition lib laws json "unit" defined h,
        view_of,
        replaced,
        view-slots,
        object_in-object lib laws,
        member-object lib laws,
        read_unit,
        interpreted_unit,
        integer_or,
        laws.integer_is,
        laws.integer_value,
        sign_extend_lem,
        string_or-text lib laws,
      )

  pub linear_ruled_lem :
      (json : lib.Json) (start delta : ℕ)
      → IsBuilder lib json
      → view lib (apply lib json (linear_ruled start delta))
        ≡ promised lib (view lib json) (linear_ruled start delta)
  unfolding apply promised set_linear_rule view_of replaced read_linear linear_parameters
      first_object member_of number_in
  linear_ruled_lem json start delta h =
      let v = lib.text linear_rule in
      let d = object lib (("delta", lib.integer delta) ∷ []) in
      let p = object lib (("delta", lib.integer delta) ∷ ("start", lib.integer start) ∷ []) in
      let r = object lib (("type", lib.integer 1) ∷ ("parameters", p) ∷ []) in
      let ruled = set_definition lib json "rule" v in
      let h1 = set_definition-IsBuilder lib laws json "rule" v h in
      let linear = set_definition lib ruled linear_rule d in
      let h2 = set_definition-IsBuilder lib laws ruled linear_rule d h1 in
      let d' =
        lib.set (lib.at (lib.at linear "definition") linear_rule) "start" (lib.integer start) in
      let started = set_definition lib linear linear_rule d' in
      let h3 = set_definition-IsBuilder lib laws linear linear_rule d' h2 in
      elim (Bool-cases (start == 0)) [
        | inl e ↦
            view-slots lib (set_linear_rule lib json start delta)
            ∙ simp (
              e,
              slots-set_interpretation lib laws linear "rule" r h2,
              slots-set_definition lib laws ruled linear_rule d h1,
              slots-set_definition lib laws json "rule" v h,
              view_of,
              replaced,
              view-slots,
              object_in-object lib laws,
              member-object lib laws,
              read_linear,
              linear_parameters,
              first_object,
              member_of,
              number_in,
              laws.integer_number,
              laws.integer_value,
              string_or-text lib laws,
            )
        | inr e ↦
            view-slots lib (set_linear_rule lib json start delta)
            ∙ simp (
              e,
              slots-set_interpretation lib laws started "rule" r h3,
              slots-set_definition lib laws linear linear_rule d' h2,
              slots-set_definition lib laws ruled linear_rule d h1,
              slots-set_definition lib laws json "rule" v h,
              view_of,
              replaced,
              view-slots,
              object_in-object lib laws,
              member-object lib laws,
              read_linear,
              linear_parameters,
              first_object,
              member_of,
              number_in,
              laws.integer_number,
              laws.integer_value,
              string_or-text lib laws,
            )
      ]
