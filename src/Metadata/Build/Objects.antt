-- ===== src/Metadata/Build/Objects.antt =====
-- The objects that src/metadata_builder.cpp makes of initializer lists.
use Prim.Native.String.{String}
use ws_streaming.Prelude.{◌≡◌, refl, List, [], ◌∷◌, true, some, none}
use ws_streaming.Metadata.Document.{Library, IsLibrary}
use ws_streaming.Metadata.Read.{member, object_in, string_or}
use ws_streaming.Metadata.Build.{object}
use ws_streaming.Metadata.Build.Slots.{replaced, member-set}

module _ (lib : Library) (laws : IsLibrary lib) where
  pub object_is : (fields : List (String × lib.Json)) → lib.is_object (object lib fields) ≡ true
  unfolding object
  object_is [] = laws.empty_is
  object_is ((key, v) ∷ fields) = laws.set_is (object lib fields) key v (object_is fields)

  pub object_in-object :
      (fields : List (String × lib.Json))
      → object_in lib (some (object lib fields)) ≡ some (object lib fields)
  unfolding object_in
  object_in-object fields = rw (object_is fields) refl

  pub member-object :
      (key : String) (v : lib.Json) (fields : List (String × lib.Json)) (key' : String)
      → member lib (object lib ((key, v) ∷ fields)) key'
        ≡ replaced (member lib (object lib fields)) key (some v) key'
  unfolding object
  member-object key v fields key' =
      member-set lib laws (object lib fields) key v key' (object_is fields)

  pub member-empty : (key : String) → member lib (object lib []) key ≡ none
  unfolding object member
  member-empty key = rw (laws.empty_contains key) refl

module _ (lib : Library) (laws : IsLibrary lib) where
  -- What is made is read.
  pub string_or-text : (s d : String) → string_or lib (some (lib.text s)) d ≡ s
  unfolding string_or
  string_or-text s d = rw (laws.text_is s) (laws.text_value s)
