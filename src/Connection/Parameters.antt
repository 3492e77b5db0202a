-- ===== src/Connection/Parameters.antt =====
-- The parameters of the messages between two ends, src/connection.cpp: how the handlers read them, and
-- the command interface. The JSON library is an argument.
use Prim.Native.String.{String}
use ws_streaming.Prelude.{
  ◌≡◌, refl, List, [], ◌∷◌, ◌++◌, map, Bool, true, false, not, ◌&&◌, if◌then◌else◌,
}
use ws_streaming.Connection.Local.{Local, Outgoing}
use ws_streaming.Connection.Local.Subscribe.{subscribe, unsubscribe}

-- The operations of nlohmann::json that the handlers call.
pub record JsonValues : Type 1 where
  pub Json : Type 0
  pub is_object : Json → Bool
  pub is_array : Json → Bool
  pub is_string : Json → Bool
  pub is_number_integer : Json → Bool
  pub null : Json
  pub contains : Json → String → Bool
  pub field : Json → String → Json
  pub elements : Json → List Json
  pub get_string : Json → String
  pub of_string : String → Json
  pub array : List Json → Json
  pub object : String → Json → Json

-- What is documented of them: a value that has been made is read as it was made.
pub record IsJson (lib : JsonValues) : Type 0 where
  pub object_is : (k : String) (v : lib.Json) → lib.is_object (lib.object k v) ≡ true
  pub object_contains : (k : String) (v : lib.Json) → lib.contains (lib.object k v) k ≡ true
  pub object_field : (k : String) (v : lib.Json) → lib.field (lib.object k v) k ≡ v
  pub array_is : (vs : List lib.Json) → lib.is_array (lib.array vs) ≡ true
  pub array_object : (vs : List lib.Json) → lib.is_object (lib.array vs) ≡ false
  pub array_string : (vs : List lib.Json) → lib.is_string (lib.array vs) ≡ false
  pub array_elements : (vs : List lib.Json) → lib.elements (lib.array vs) ≡ vs
  pub string_is : (s : String) → lib.is_string (lib.of_string s) ≡ true
  pub string_value : (s : String) → lib.get_string (lib.of_string s) ≡ s

-- The exceptions of the command interface.
pub data CommandError : Type 0 where
  server_error invalid_params : CommandError

pub data CommandResult : Type 0 where
  done : CommandResult
  results : List Bool → CommandResult
  failed : CommandError → CommandResult

module _ (lib : JsonValues) where
  -- The items of a list that are strings.
  unfoldable pub string_items : List lib.Json → List String
  string_items [] = []
  string_items (v ∷ vs) =
      let rest = string_items vs in if lib.is_string v then lib.get_string v ∷ rest else rest

  -- `handle_available` and `handle_unavailable`: the ids, in an object or in the list itself.
  unfoldable pub read_ids : lib.Json → List String
  unfolding string_items
  read_ids params =
      if lib.is_object params
        && lib.contains params "signalIds"
        && lib.is_array (lib.field params "signalIds")
      then string_items (lib.elements (lib.field params "signalIds"))
      else if lib.is_array params
      then string_items (lib.elements params)
      else []

  first_string : List lib.Json → String
  first_string [] = ""
  first_string (v ∷ vs) = if lib.is_string v then lib.get_string v else ""

  -- `handle_subscribe`: the id, in an object or the first of a list; empty where there is none.
  unfoldable pub read_signal_id : lib.Json → String
  unfolding first_string
  read_signal_id params =
      if lib.is_object params
        && lib.contains params "signalId"
        && lib.is_string (lib.field params "signalId")
      then lib.get_string (lib.field params "signalId")
      else if lib.is_array params
      then first_string (lib.elements params)
      else ""

  -- What is sent in `available` and `unavailable`, and in `subscribe` and `unsubscribe`.
  unfoldable pub signal_ids_params : List String → lib.Json
  signal_ids_params ids = lib.object "signalIds" (lib.array (map lib.of_string ids))

  unfoldable pub signal_id_params : String → lib.Json
  signal_id_params id = lib.object "signalId" (lib.of_string id)

  -- A list of ids, each of which is tried.
  unfoldable pub subscribe_items : Local → List lib.Json → Local × List Bool × List Outgoing
  subscribe_items c [] = (c, [], [])
  subscribe_items c (v ∷ vs) =
      let (c', ok, sent) =
        if lib.is_string v then subscribe c (lib.get_string v) true else (c, false, []) in
      let (c'', oks, more) = subscribe_items c' vs in (c'', ok ∷ oks, sent ++ more)

  unfoldable pub unsubscribe_items : Local → List lib.Json → Local × List Bool × List Outgoing
  unsubscribe_items c [] = (c, [], [])
  unsubscribe_items c (v ∷ vs) =
      let (c', ok, sent) =
        if lib.is_string v then unsubscribe c (lib.get_string v) true else (c, false, []) in
      let (c'', oks, more) = unsubscribe_items c' vs in (c'', ok ∷ oks, sent ++ more)

  unfoldable pub do_command_interface_subscribe :
      Local → lib.Json → Local × CommandResult × List Outgoing
  unfolding subscribe_items
  do_command_interface_subscribe c params =
      let (c', ok, sent) = subscribe c (lib.get_string params) true in
      let (c'', oks, more) = subscribe_items c (lib.elements params) in
      if lib.is_string params
      then (c', (if not ok then failed server_error else done), sent)
      else if lib.is_array params
      then (c'', results oks, more)
      else (c, failed invalid_params, [])

  unfoldable pub do_command_interface_unsubscribe :
      Local → lib.Json → Local × CommandResult × List Outgoing
  unfolding unsubscribe_items
  do_command_interface_unsubscribe c params =
      let (c', ok, sent) = unsubscribe c (lib.get_string params) true in
      let (c'', oks, more) = unsubscribe_items c (lib.elements params) in
      if lib.is_string params
      then (c', (if not ok then failed server_error else done), sent)
      else if lib.is_array params
      then (c'', results oks, more)
      else (c, failed invalid_params, [])

  module _ (laws : IsJson lib) where
    string_items-map : (ids : List String) → string_items (map lib.of_string ids) ≡ ids
    unfolding string_items
    string_items-map [] = refl
    string_items-map (id ∷ ids) = rw (laws.string_is id, laws.string_value id, string_items-map ids)

    -- With a JSON library that reads what it has made, the ids in the parameters of the messages
    -- about signals are read as they were sent, and the same from a plain list of ids.
    pub read-params :
        (id : String) (ids : List String)
        → (read_ids (signal_ids_params ids) ≡ ids)
          × (read_ids (lib.array (map lib.of_string ids)) ≡ ids)
          × (read_signal_id (signal_id_params id) ≡ id)
          × (read_signal_id (lib.array (map lib.of_string (id ∷ ids))) ≡ id)
    unfolding read_ids read_signal_id signal_ids_params signal_id_params first_string
    read-params id ids =
        let list = lib.array (map lib.of_string ids) in
        let one = lib.of_string id in
        let more = map lib.of_string (id ∷ ids) in
        (
          rw
              (
                laws.object_is "signalIds" list,
                laws.object_contains "signalIds" list,
                laws.object_field "signalIds" list,
                laws.array_is (map lib.of_string ids),
                laws.array_elements (map lib.of_string ids),
              )
              (string_items-map ids),
          rw
              (
                laws.array_object (map lib.of_string ids),
                laws.array_is (map lib.of_string ids),
                laws.array_elements (map lib.of_string ids),
              )
              (string_items-map ids),
          rw
              (
                laws.object_is "signalId" one,
                laws.object_contains "signalId" one,
                laws.object_field "signalId" one,
                laws.string_is id,
              )
              (laws.string_value id),
          rw
              (
                laws.array_object more,
                laws.array_is more,
                laws.array_elements more,
                laws.string_is id,
              )
              (laws.string_value id),
        )
