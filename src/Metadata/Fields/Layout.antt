-- ===== src/Metadata/Fields/Layout.antt =====
-- The size that the fields built by src/struct_field_builder.cpp add to a sample in
-- src/metadata.cpp, and what is read of the dimensions of src/dimension_builder.cpp.
use Prim.Native.String.{String}
use ws_streaming.Prelude.{
  ◌≡◌, refl, ◌∙◌, ℕ, ◌+◌, ◌*◌, ◌%◌, ◌^◌, List, [], ◌∷◌, ◌++◌, not, ◌&&◌, ◌||◌, some, true,
}
use ws_streaming.Signals.Metadata.{linear_rule}
use ws_streaming.Metadata.Document.{Library, IsLibrary}
use ws_streaming.Metadata.Read
use ws_streaming.Metadata.Read.{
  member, member_of, object_in, string_or, number_in, integer_or, get_primitive_size, struct_t,
  definition_at,
}
use ws_streaming.Metadata.Read.Sizes.{
  array_in, first, field_count, type_size, add_field, add_fields, size_of, sample_size,
}
use ws_streaming.Metadata.Build.{add_struct_field}
use ws_streaming.Metadata.Build.Slots.{IsBuilder, replaced, member-set}
use ws_streaming.Metadata.Build.Objects.{object_in-object, member-object, string_or-text}
use ws_streaming.Metadata.Refinement.{view, apply, promised, field}
use ws_streaming.Metadata.Refinement.Promise.{view-apply}
use ws_streaming.Metadata.Fields.{
  set_array, set_data_type, add_dimension, set_dimension_rule, rule, read_linear,
  linear_start_delta_size,
}

module _ (lib : Library) (laws : IsLibrary lib) where
  add_fields-append :
      (size : ℕ) (fields : List lib.Json) (f : lib.Json)
      → add_fields lib size (fields ++ f ∷ []) ≡ add_field lib (add_fields lib size fields) f
  unfolding add_fields
  add_fields-append size [] f = refl
  add_fields-append size (g ∷ fields) f = add_fields-append (add_field lib size g) fields f

  -- The size is that of the data type and the fields that are read.
  sample_size-view :
      (json : lib.Json)
      → sample_size lib json ≡ size_of lib (view lib json).data_type (view lib json).fields
  unfolding sample_size view
  sample_size-view json = refl

  size_of-struct :
      (fields : List lib.Json) (f : lib.Json)
      → size_of lib struct_t (fields ++ f ∷ []) ≡ add_field lib (size_of lib struct_t fields) f
  unfolding size_of get_primitive_size
  size_of-struct fields f = add_fields-append 0 fields f

  appended :
      (json f : lib.Json)
      → IsBuilder lib json
      → (view lib json).data_type ≡ struct_t
      → sample_size lib (apply lib json (field f)) ≡ add_field lib (sample_size lib json) f
  unfolding promised
  appended json f h e = cc (
    sample_size-view (apply lib json (field f)),
    view-apply lib laws json (field f) h,
    size_of-struct (view lib json).fields f,
    sample_size-view json,
    e,
  )

  array_in-array : (vs : List lib.Json) → array_in lib (some (lib.array vs)) ≡ vs
  unfolding array_in
  array_in-array vs = rw (laws.array_is vs) (laws.array_elements vs)

  -- The two fields that the size is computed from.
  typed_dimensions :
      (json v : lib.Json) (type : String)
      → lib.is_object json ≡ true
      → member lib (set_data_type lib (lib.set json "dimensions" v) type) "dimensions" ≡ some v
  unfolding set_data_type replaced
  typed_dimensions json v type h =
      member-set lib laws (lib.set json "dimensions" v) "dataType" (lib.text type) "dimensions"
        (laws.set_is json "dimensions" v h)
      ∙ member-set lib laws json "dimensions" v "dimensions" h

  field_count-set_array :
      (json : lib.Json) (type : String) (n : ℕ)
      → lib.is_object json ≡ true
      → field_count lib (set_data_type lib (set_array lib json n) type) ≡ n % 2 ^ 64
  unfolding field_count set_array replaced first member_of integer_or
  field_count-set_array json type n h = simp (
    field_count,
    set_array,
    typed_dimensions json _ type h,
    array_in-array,
    object_in-object lib laws,
    first,
    member_of,
    member-object lib laws,
    replaced,
    integer_or,
    laws.unsigned_is,
    laws.unsigned_value,
  )

  set_array-IsObject :
      (json : lib.Json) (n : ℕ)
      → lib.is_object json ≡ true
      → lib.is_object (set_array lib json n) ≡ true
  unfolding set_array
  set_array-IsObject json n h = laws.set_is json "dimensions" _ h

  set_linear :
      (json r v : lib.Json)
      → lib.is_object json ≡ true
      → member lib (lib.set (lib.set json "rule" r) "linear" v) "linear" ≡ some v
  unfolding replaced
  set_linear json r v h =
      member-set lib laws (lib.set json "rule" r) "linear" v "linear" (laws.set_is json "rule" r h)

  set_ruled :
      (json r v : lib.Json)
      → lib.is_object json ≡ true
      → member lib (lib.set (lib.set json "rule" r) "linear" v) "rule" ≡ some r
  unfolding replaced
  set_ruled json r v h =
      member-set lib laws (lib.set json "rule" r) "linear" v "rule" (laws.set_is json "rule" r h)
      ∙ member-set lib laws json "rule" r "rule" h

  set_array-IsTyped :
      (json : lib.Json) (type : String) (n : ℕ)
      → lib.is_object json ≡ true
      → (lib.is_object (set_data_type lib (set_array lib json n) type)
          && lib.contains (set_data_type lib (set_array lib json n) type) "dataType"
          && lib.is_string (lib.at (set_data_type lib (set_array lib json n) type) "dataType"))
        ≡ true
  unfolding set_data_type
  set_array-IsTyped json type n h =
      let v = lib.text type in
      let a = set_array lib json n in
      let ha = set_array-IsObject json n h in
      rw
        (
          set_data_type,
          laws.set_is a "dataType" v ha,
          laws.set_contains a "dataType" v "dataType" ha,
          laws.set_at a "dataType" v "dataType" ha,
        )
        (laws.text_is type)

  type_of :
      (json : lib.Json) (type : String) (n : ℕ)
      → lib.is_object json ≡ true
      → type_size lib (member lib (set_data_type lib (set_array lib json n) type) "dataType")
        ≡ get_primitive_size type
  unfolding set_data_type type_size replaced
  type_of json type n h = simp (
    set_data_type,
    member-set lib laws (set_array lib json n) "dataType" (lib.text type) "dataType"
        (set_array-IsObject json n h),
    replaced,
    type_size,
    laws.text_is,
    laws.text_value,
  )

  -- With a JSON library that reads what it has stored, a field that is an array of n values of a
  -- type, added to a builder of the data type struct, makes the size of a sample larger by n
  -- times the size of the type, as words of 64 bits.
  pub sample_size-add_struct_field :
      (json f : lib.Json) (type : String) (n : ℕ)
      → IsBuilder lib json
      → Read.data_type lib json ≡ struct_t
      → lib.is_object f ≡ true
      → sample_size lib (add_struct_field lib json (set_data_type lib (set_array lib f n) type))
        ≡ (sample_size lib json + get_primitive_size type * (n % 2 ^ 64) % 2 ^ 64) % 2 ^ 64
  unfolding apply view add_field
  sample_size-add_struct_field json f type n h e hf =
      appended json (set_data_type lib (set_array lib f n) type) h e
      ∙ rw
          (
            add_field,
            set_array-IsTyped f type n hf,
            type_of f type n hf,
            field_count-set_array f type n hf,
          )
          refl

  -- With a JSON library that reads what it has stored, the start, the delta and the size that a
  -- dimension's linear rule is given are read of the dimension, as words of 64 bits.
  pub linear_start_delta_size-set_dimension_rule :
      (json : lib.Json) (start delta size : ℕ)
      → lib.is_object json ≡ true
      → linear_start_delta_size lib (set_dimension_rule lib json start delta size)
        ≡ (some (start % 2 ^ 64), some (delta % 2 ^ 64), some (size % 2 ^ 64))
  unfolding linear_start_delta_size set_dimension_rule rule read_linear replaced number_in
  linear_start_delta_size-set_dimension_rule json start delta size h = simp (
    linear_start_delta_size,
    set_dimension_rule,
    rule,
    set_linear json (lib.text linear_rule) _ h,
    set_ruled json (lib.text linear_rule) _ h,
    string_or-text lib laws,
    object_in-object lib laws,
    member-object lib laws,
    replaced,
    read_linear,
    number_in,
    laws.integer_number,
    laws.integer_value,
    laws.unsigned_number,
    laws.unsigned_value,
  )

  -- With a JSON library that reads what it has stored, a field whose dimensions are missing or an
  -- array has, after a dimension is added, this dimension only.
  pub elements-add_dimension :
      (json dimension : lib.Json)
      → lib.is_object json ≡ true
      → (not (lib.contains json "dimensions") || lib.is_array (lib.at json "dimensions")) ≡ true
      → lib.elements (lib.at (add_dimension lib json dimension) "dimensions") ≡ dimension ∷ []
  unfolding add_dimension
  elements-add_dimension json dimension h e =
      let ready = lib.set json "dimensions" (lib.array []) in
      let hr = laws.set_is json "dimensions" (lib.array []) h in
      rw
        (
          add_dimension,
          e,
          laws.set_at json "dimensions" (lib.array []) "dimensions" h,
          laws.array_elements [],
          laws.set_at ready "dimensions" (lib.array (dimension ∷ [])) "dimensions" hr,
        )
        (laws.array_elements (dimension ∷ []))
