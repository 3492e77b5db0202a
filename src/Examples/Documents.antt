-- ===== src/Examples/Documents.antt =====
-- A JSON library whose objects are lists of stored and erased fields, and metadata built with it.
use Prim.Native.String.{String}
use ws_streaming.Prelude.{
  ◌≡◌, ◌&&◌, refl, ap, ℕ, ◌+◌, ◌*◌, ◌%◌, ◌^◌, List, [], ◌∷◌, not, ◌||◌, Bool, true, false, Option,
  none, some, if◌then◌else◌,
}
use ws_streaming.Signals.Ids.{same_id, same_id_iff}
use ws_streaming.Connection.Parameters.{IsJson}
use ws_streaming.Connection.Messages.{json_values}
use ws_streaming.Metadata.Document.{Library, IsLibrary}
use ws_streaming.Metadata.Read
use ws_streaming.Metadata.Read.{metadata, struct_t, get_primitive_size}
use ws_streaming.Metadata.Read.Sizes.{sample_size}
use ws_streaming.Metadata.Build.{metadata_builder, builder_from_json, object, add_struct_field}
use ws_streaming.Metadata.Build.Slots.{IsBuilder}
use ws_streaming.Metadata.Refinement.{
  Operation, View, view, promised, initial, apply, apply_all, promised_all, typed, linear_ruled,
  in_table, resolved, measured,
}
use ws_streaming.Metadata.Refinement.Start.{metadata_builder-IsBuilder}
use ws_streaming.Metadata.Refinement.Promise.{view-apply, apply-IsBuilder, view-build, view-edit}
use ws_streaming.Metadata.Fields.{
  set_array, set_data_type, add_dimension, dimension_builder, set_dimension_rule,
  struct_field_builder, linear_start_delta_size,
}
use ws_streaming.Metadata.Fields.Layout.{
  sample_size-add_struct_field, linear_start_delta_size-set_dimension_rule, elements-add_dimension,
}

pub data Value : Type 0 where
  nothing no_fields no_items : Value
  text : String → Value
  signed natural measure : ℕ → Value
  with_field : Value → String → Value → Value
  without : Value → String → Value
  item : Value → Value → Value

pub is_fields : Value → Bool
is_fields no_fields = true
is_fields (with_field _ _ _) = true
is_fields (without _ _) = true
is_fields _ = false

pub is_items : Value → Bool
is_items no_items = true
is_items (item _ _) = true
is_items _ = false

pub is_text : Value → Bool
is_text (text _) = true
is_text _ = false

pub is_whole : Value → Bool
is_whole (signed _) = true
is_whole (natural _) = true
is_whole _ = false

pub is_numeric : Value → Bool
is_numeric (signed _) = true
is_numeric (natural _) = true
is_numeric (measure _) = true
is_numeric _ = false

pub has : Value → String → Bool
has (with_field j k v) k' = if same_id k k' then true else has j k'
has (without j k) k' = if same_id k k' then false else has j k'
has _ k' = false

pub field_at : Value → String → Value
field_at (with_field j k v) k' = if same_id k k' then v else field_at j k'
field_at (without j k) k' = if same_id k k' then nothing else field_at j k'
field_at _ k' = nothing

pub array_of : List Value → Value
array_of [] = no_items
array_of (v ∷ vs) = item v (array_of vs)

pub items : Value → List Value
items (item v vs) = v ∷ items vs
items _ = []

pub text_of : Value → String
text_of (text s) = s
text_of _ = ""

pub word_of : Value → ℕ
word_of (signed w) = w % 2 ^ 64
word_of (natural w) = w % 2 ^ 64
word_of _ = 0

pub measure_of : Value → ℕ
measure_of (measure x) = x
measure_of _ = 0

pub word_32 : Value → Option ℕ
word_32 (signed w) = some (w % 2 ^ 32)
word_32 (natural w) = some (w % 2 ^ 32)
word_32 _ = none

-- The only pointer that is followed is the one to the samples of a rate.
pub pointed : Value → String → Value → Value
pointed j pointer fallback =
    if same_id pointer "/samples" && has j "samples" then field_at j "samples" else fallback

abbrev pub documents : Library
documents = record {
  Json = Value;
  Real = ℕ;
  zero_real = 0;
  null = nothing;
  braces = nothing;
  empty_object = no_fields;
  array = array_of;
  text = text;
  integer = signed;
  unsigned = natural;
  real = measure;
  is_object = is_fields;
  is_array = is_items;
  is_string = is_text;
  is_number = is_numeric;
  is_number_integer = is_whole;
  contains = has;
  at = field_at;
  set = with_field;
  erase = without;
  elements = items;
  get_string = text_of;
  get_integer = word_of;
  get_real = measure_of;
  value_pointer = pointed;
  get_word_32 = word_32;
}

array_of-is_items : (vs : List Value) → is_items (array_of vs) ≡ true
unfolding is_items array_of
array_of-is_items [] = refl
array_of-is_items (v ∷ vs) = refl

items-array_of : (vs : List Value) → items (array_of vs) ≡ vs
unfolding items array_of
items-array_of [] = refl
items-array_of (v ∷ vs) = ap (λ (xs : List Value). v ∷ xs) (items-array_of vs)

pub documents-IsLibrary : IsLibrary documents
unfolding is_fields is_text is_whole is_numeric has field_at text_of word_of measure_of
documents-IsLibrary = record {
  empty_is = refl;
  empty_contains = λ k. refl;
  set_is = λ j k v h. refl;
  set_contains = λ j k v k' h. refl;
  set_at = λ j k v k' h. refl;
  erase_is = λ j k h. refl;
  erase_contains = λ j k k' h. refl;
  erase_at = λ j k k' h e. rw e refl;
  array_is = array_of-is_items;
  array_elements = items-array_of;
  text_is = λ s. refl;
  text_value = λ s. refl;
  integer_is = λ w. refl;
  integer_number = λ w. refl;
  integer_value = λ w. refl;
  unsigned_is = λ w. refl;
  unsigned_number = λ w. refl;
  unsigned_value = λ w. refl;
  real_number = λ x. refl;
  real_value = λ x. refl;
}

array_of-is_fields : (vs : List Value) → is_fields (array_of vs) ≡ false
unfolding is_fields array_of
array_of-is_fields [] = refl
array_of-is_fields (v ∷ vs) = refl

array_of-is_text : (vs : List Value) → is_text (array_of vs) ≡ false
unfolding is_text array_of
array_of-is_text [] = refl
array_of-is_text (v ∷ vs) = refl

pub documents-IsJson : IsJson (json_values documents)
unfolding is_fields has field_at is_text text_of
documents-IsJson = record {
  object_is = λ k v. refl;
  object_contains = λ k v. rw ((same_id_iff k k).1 refl) refl;
  object_field = λ k v. rw ((same_id_iff k k).1 refl) refl;
  array_is = array_of-is_items;
  array_object = array_of-is_fields;
  array_string = array_of-is_text;
  array_elements = items-array_of;
  string_is = λ s. refl;
  string_value = λ s. refl;
}

-- A time signal of 1000 ticks for each sample.
abbrev time_signal : List (Operation documents)
time_signal =
    linear_ruled 5 1000
    ∷ in_table "time"
    ∷ typed "uint64"
    ∷ resolved 1 1000000000
    ∷ measured (record { id = 4294967295; name = "seconds"; quantity = "time"; symbol = "s" })
    ∷ []

view-build_example :
    view documents (apply_all documents (metadata_builder documents "t") time_signal)
    ≡ promised_all documents (initial documents "t") time_signal
view-build_example = view-build documents documents-IsLibrary "t" time_signal

abbrev foreign : Value
foreign = with_field no_fields "definition" (with_field no_fields "origin" (text "device"))

view-edit_example :
    view documents (apply_all documents (builder_from_json documents foreign) time_signal)
    ≡ promised_all documents (view documents (metadata documents foreign)) time_signal
view-edit_example = view-edit documents documents-IsLibrary foreign time_signal

-- A signal of structures, and a field of one.
abbrev structure : Value
structure = apply documents (metadata_builder documents "s") (typed struct_t)

abbrev named : Value
named = struct_field_builder documents "x"

abbrev along : Value
along = set_dimension_rule documents (dimension_builder documents "row") 0 1 3

structure-IsBuilder : IsBuilder documents structure
structure-IsBuilder =
    apply-IsBuilder documents documents-IsLibrary (metadata_builder documents "s") (typed struct_t)
      (metadata_builder-IsBuilder documents documents-IsLibrary "s")

structure-data_type : Read.data_type documents structure ≡ struct_t
unfolding view promised
structure-data_type =
    ap (λ (s : View documents). s.data_type)
      (view-apply documents documents-IsLibrary (metadata_builder documents "s") (typed struct_t)
        (metadata_builder-IsBuilder documents documents-IsLibrary "s"))

named-IsObject : is_fields named ≡ true
unfolding is_fields struct_field_builder object
named-IsObject = refl

sample_size-add_struct_field_example :
    sample_size documents (
      add_struct_field documents structure
        (set_data_type documents (set_array documents named 3) "int16"))
    ≡ (sample_size documents structure + get_primitive_size "int16" * (3 % 2 ^ 64) % 2 ^ 64)
      % 2 ^ 64
sample_size-add_struct_field_example =
    sample_size-add_struct_field documents documents-IsLibrary structure named "int16" 3
      structure-IsBuilder structure-data_type named-IsObject

linear_start_delta_size-set_dimension_rule_example :
    linear_start_delta_size documents (set_dimension_rule documents named 1 2 8)
    ≡ (some 1, some 2, some 8)
linear_start_delta_size-set_dimension_rule_example =
    linear_start_delta_size-set_dimension_rule documents documents-IsLibrary named 1 2 8
      named-IsObject

-- Two dimensions, of which the second is kept.
abbrev one_dimension : Value
one_dimension = add_dimension documents named (dimension_builder documents "column")

one_dimension-IsObject : is_fields one_dimension ≡ true
unfolding is_fields add_dimension
one_dimension-IsObject = refl

one_dimension-IsArray :
    (not (has one_dimension "dimensions") || is_items (field_at one_dimension "dimensions")) ≡ true
unfolding add_dimension has field_at is_items struct_field_builder object array_of items
one_dimension-IsArray = refl

elements-add_dimension_example :
    items (field_at (add_dimension documents one_dimension along) "dimensions") ≡ along ∷ []
elements-add_dimension_example =
    elements-add_dimension documents documents-IsLibrary one_dimension along one_dimension-IsObject
      one_dimension-IsArray
