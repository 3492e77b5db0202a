-- ===== src/Metadata/Document.antt =====
-- The JSON library as src/metadata.cpp, src/metadata_builder.cpp and the builders of structure
-- fields call it. It is an argument of what uses it.
use Prim.Native.String.{String}
use ws_streaming.Prelude.{◌≡◌, ℕ, ◌%◌, ◌^◌, List, Bool, true, false, Option, if◌then◌else◌}
use ws_streaming.Signals.Ids.{same_id}

-- The operations of nlohmann::json. `set` is an assignment to `json[key]`, `integer` and `unsigned`
-- make numbers of 64-bit words, and `get_integer` converts one to a word. `Real` is double, and
-- `braces` is what an empty pair of braces stands for. `get_word_32` is `get<uint32_t>`, and none where that
-- throws a type error.
pub record Library : Type 1 where
  pub Json : Type 0
  pub Real : Type 0
  pub zero_real : Real
  pub null : Json
  pub braces : Json
  pub empty_object : Json
  pub array : List Json → Json
  pub text : String → Json
  pub integer : ℕ → Json
  pub unsigned : ℕ → Json
  pub real : Real → Json
  pub is_object : Json → Bool
  pub is_array : Json → Bool
  pub is_string : Json → Bool
  pub is_number : Json → Bool
  pub is_number_integer : Json → Bool
  pub contains : Json → String → Bool
  pub at : Json → String → Json
  pub set : Json → String → Json → Json
  pub erase : Json → String → Json
  pub elements : Json → List Json
  pub get_string : Json → String
  pub get_integer : Json → ℕ
  pub get_real : Json → Real
  pub value_pointer : Json → String → Json → Json
  pub get_word_32 : Json → Option ℕ

-- What is documented of them: what has been made or stored is read again, and a field that is
-- stored or erased leaves the others as they are.
pub record IsLibrary (lib : Library) : Type 0 where
  pub empty_is : lib.is_object lib.empty_object ≡ true
  pub empty_contains : (k : String) → lib.contains lib.empty_object k ≡ false
  pub set_is :
      (j : lib.Json) (k : String) (v : lib.Json)
      → lib.is_object j ≡ true
      → lib.is_object (lib.set j k v) ≡ true
  pub set_contains :
      (j : lib.Json) (k : String) (v : lib.Json) (k' : String)
      → lib.is_object j ≡ true
      → lib.contains (lib.set j k v) k' ≡ (if same_id k k' then true else lib.contains j k')
  pub set_at :
      (j : lib.Json) (k : String) (v : lib.Json) (k' : String)
      → lib.is_object j ≡ true
      → lib.at (lib.set j k v) k' ≡ (if same_id k k' then v else lib.at j k')
  pub erase_is :
      (j : lib.Json) (k : String) → lib.is_object j ≡ true → lib.is_object (lib.erase j k) ≡ true
  pub erase_contains :
      (j : lib.Json) (k k' : String)
      → lib.is_object j ≡ true
      → lib.contains (lib.erase j k) k' ≡ (if same_id k k' then false else lib.contains j k')
  pub erase_at :
      (j : lib.Json) (k k' : String)
      → lib.is_object j ≡ true
      → same_id k k' ≡ false
      → lib.at (lib.erase j k) k' ≡ lib.at j k'
  pub array_is : (vs : List lib.Json) → lib.is_array (lib.array vs) ≡ true
  pub array_elements : (vs : List lib.Json) → lib.elements (lib.array vs) ≡ vs
  pub text_is : (s : String) → lib.is_string (lib.text s) ≡ true
  pub text_value : (s : String) → lib.get_string (lib.text s) ≡ s
  pub integer_is : (w : ℕ) → lib.is_number_integer (lib.integer w) ≡ true
  pub integer_number : (w : ℕ) → lib.is_number (lib.integer w) ≡ true
  pub integer_value : (w : ℕ) → lib.get_integer (lib.integer w) ≡ w % 2 ^ 64
  pub unsigned_is : (w : ℕ) → lib.is_number_integer (lib.unsigned w) ≡ true
  pub unsigned_number : (w : ℕ) → lib.is_number (lib.unsigned w) ≡ true
  pub unsigned_value : (w : ℕ) → lib.get_integer (lib.unsigned w) ≡ w % 2 ^ 64
  pub real_number : (x : lib.Real) → lib.is_number (lib.real x) ≡ true
  pub real_value : (x : lib.Real) → lib.get_real (lib.real x) ≡ x
