-- ===== src/Examples/Json.antt =====
-- A JSON library that has strings, arrays and objects of one field, and parameters read with it.
use Prim.Native.String.{String}
use ws_streaming.Prelude.{◌≡◌, refl, ap, List, [], ◌∷◌, map, Bool, true, false}
use ws_streaming.Signals.Ids.{same_id, same_id_iff}
use ws_streaming.Connection.Parameters.{
  JsonValues, IsJson, read_ids, read_signal_id, signal_ids_params, signal_id_params, read-params,
}

pub data Value : Type 0 where
  text : String → Value
  nil : Value
  cons : Value → Value → Value
  one_field : String → Value → Value

pub array_of : List Value → Value
array_of [] = nil
array_of (v ∷ vs) = cons v (array_of vs)

pub items : Value → List Value
items (cons v vs) = v ∷ items vs
items _ = []

pub is_list : Value → Bool
is_list nil = true
is_list (cons _ _) = true
is_list _ = false

pub is_text : Value → Bool
is_text (text _) = true
is_text _ = false

pub is_one_field : Value → Bool
is_one_field (one_field _ _) = true
is_one_field _ = false

pub has_field : Value → String → Bool
has_field (one_field k _) name = same_id k name
has_field _ name = false

pub field_of : Value → String → Value
field_of (one_field _ v) name = v
field_of v name = v

pub text_of : Value → String
text_of (text s) = s
text_of _ = ""

abbrev pub values : JsonValues
values = record {
  Json = Value;
  is_object = is_one_field;
  is_array = is_list;
  is_string = is_text;
  is_number_integer = λ v. false;
  null = nil;
  contains = has_field;
  field = field_of;
  elements = items;
  get_string = text_of;
  of_string = text;
  array = array_of;
  object = one_field;
}

array_of-is_list : (vs : List Value) → is_list (array_of vs) ≡ true
unfolding is_list array_of
array_of-is_list [] = refl
array_of-is_list (v ∷ vs) = refl

array_of-is_one_field : (vs : List Value) → is_one_field (array_of vs) ≡ false
unfolding is_one_field array_of
array_of-is_one_field [] = refl
array_of-is_one_field (v ∷ vs) = refl

array_of-is_text : (vs : List Value) → is_text (array_of vs) ≡ false
unfolding is_text array_of
array_of-is_text [] = refl
array_of-is_text (v ∷ vs) = refl

items-array_of : (vs : List Value) → items (array_of vs) ≡ vs
unfolding items array_of
items-array_of [] = refl
items-array_of (v ∷ vs) = ap (λ (xs : List Value). v ∷ xs) (items-array_of vs)

pub values-IsJson : IsJson values
unfolding is_one_field has_field field_of is_text text_of
values-IsJson = record {
  object_is = λ k v. refl;
  object_contains = λ k v. (same_id_iff k k).1 refl;
  object_field = λ k v. refl;
  array_is = array_of-is_list;
  array_object = array_of-is_one_field;
  array_string = array_of-is_text;
  array_elements = items-array_of;
  string_is = λ s. refl;
  string_value = λ s. refl;
}

abbrev ids : List String
ids = "time" ∷ "value" ∷ []

read-params_example :
    (read_ids values (signal_ids_params values ids) ≡ ids)
    × (read_ids values (array_of (map text ids)) ≡ ids)
    × (read_signal_id values (signal_id_params values "time") ≡ "time")
    × (read_signal_id values (array_of (map text ("time" ∷ ids))) ≡ "time")
read-params_example = read-params values values-IsJson "time" ids
