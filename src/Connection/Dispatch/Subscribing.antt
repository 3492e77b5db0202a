-- ===== src/Connection/Dispatch/Subscribing.antt =====
-- The requests of src/connection.cpp and src/detail/in_band_command_interface_client.cpp for a signal,
-- at the end that sends and at the end that receives them.
use Prim.Native.String.{String}
use ws_streaming.Prelude.{
  ◌≡◌, refl, ℕ, List, [], ◌∷◌, ◌++◌, map, append-nil, true, false, Option, some,
}
use ws_streaming.Signals.Ids.{same_id, same_id_iff, joined}
use ws_streaming.Metadata.Document.{Library, IsLibrary}
use ws_streaming.Metadata.Build.{object}
use ws_streaming.Connection.Local.{Local}
use ws_streaming.Connection.Local.Subscribe.{subscribe}
use ws_streaming.Connection.Parameters.{
  IsJson, results, do_command_interface_subscribe, subscribe_items,
}
use ws_streaming.Connection.Messages.{json_values, request_message}
use ws_streaming.Connection.Dispatch.{
  Session, returned, in_band, outcome, requested, response, sent, has_string, value_or_null,
  request_reply, do_command_interface, handle_command_interface_request, handle_stream_message,
  on_signal_subscribe_requested, on_peer_metadata_received,
}

module _ (doc : Library) (laws : IsLibrary doc) (json : IsJson (json_values doc)) where
  subscribe_one :
      (c : Local) (id : String)
      → do_command_interface_subscribe (json_values doc) c (doc.array (doc.text id ∷ []))
        ≡ ((subscribe c id true).0, results ((subscribe c id true).1 ∷ []), (subscribe c id true).2)
  unfolding do_command_interface_subscribe subscribe_items
  subscribe_one c id =
      let ids = doc.text id ∷ [] in
      rw
        (
          do_command_interface_subscribe,
          json.array_string ids,
          json.array_is ids,
          json.array_elements ids,
          subscribe_items,
          json.string_is id,
          json.string_value id,
          append-nil (subscribe c id true).2,
        )
        refl

  -- The fields of a request.
  object-is : (fields : List (String × doc.Json)) → doc.is_object (object doc fields) ≡ true
  unfolding object
  object-is [] = laws.empty_is
  object-is ((k, v) ∷ fields) = laws.set_is (object doc fields) k v (object-is fields)

  -- A field is found first, or among the others.
  unfoldable HasField : doc.Json → String → doc.Json → Type 0
  HasField m key v = (doc.contains m key ≡ true) × (doc.at m key ≡ v)

  first_field :
      (key : String) (v : doc.Json) (fields : List (String × doc.Json))
      → HasField (object doc ((key, v) ∷ fields)) key v
  unfolding HasField object
  first_field key v fields =
      let h = object-is fields in
      let same = (same_id_iff key key).1 refl in
      (
        rw (laws.set_contains (object doc fields) key v key h, same) refl,
        rw (laws.set_at (object doc fields) key v key h, same) refl,
      )

  later_field :
      (k key : String) (v w : doc.Json) (fields : List (String × doc.Json))
      → same_id k key ≡ false
      → HasField (object doc fields) key v
      → HasField (object doc ((k, w) ∷ fields)) key v
  unfolding HasField object
  later_field k key v w fields e (c, a) =
      let h = object-is fields in
      (
        rw (laws.set_contains (object doc fields) k w key h, e) c,
        rw (laws.set_at (object doc fields) k w key h, e) a,
      )

  value_lem :
      (m : doc.Json) (key : String) (v : doc.Json) → HasField m key v → value_or_null doc m key ≡ v
  unfolding HasField value_or_null
  value_lem m key v (c, a) = rw (value_or_null, c) a

  string_lem :
      (m : doc.Json) (key s : String) → HasField m key (doc.text s) → has_string doc m key ≡ true
  unfolding HasField has_string
  string_lem m key s (c, a) = rw (has_string, c, a) (json.string_is s)

  request_fields :
      (n : ℕ) (method : String) (params : doc.Json)
      → let m = request_message doc n method params in
        (doc.is_object m ≡ true)
        × (has_string doc m "method" ≡ true)
        × (doc.at m "method" ≡ doc.text method)
        × (value_or_null doc m "params" ≡ params)
        × (value_or_null doc m "id" ≡ doc.unsigned n)
  unfolding request_message HasField
  request_fields n method params =
      let m = request_message doc n method params in
      let v = doc.text "2.0" in
      let i = doc.unsigned n in
      let t = doc.text method in
      let f1 : List (String × doc.Json) = ("params", params) ∷ [] in
      let f2 : List (String × doc.Json) = ("method", t) ∷ f1 in
      let f3 : List (String × doc.Json) = ("id", i) ∷ f2 in
      let id_in = later_field "jsonrpc" "id" i v f3 refl (first_field "id" i f2) in
      let method_in =
        later_field "jsonrpc" "method" t v f3 refl
          (later_field "id" "method" t i f2 refl (first_field "method" t f1)) in
      let params_in = later_field "jsonrpc" "params" params v f3 refl (
        later_field "id" "params" params i f2 refl
          (later_field "method" "params" params t f1 refl (first_field "params" params []))) in
      (
        object-is (("jsonrpc", v) ∷ f3),
        string_lem m "method" method method_in,
        method_in.1,
        value_lem m "params" params params_in,
        value_lem m "id" i id_in,
      )

  module _ (bytes : String → List ℕ) (endpoint : Option String) where
    -- With a JSON library that reads what it has made, an end whose client of the other end's
    -- command interface is in the stream makes, for a signal, the request to subscribe it in the
    -- other end's stream; the message of this request makes the other end, whose stream id that
    -- is, subscribe the signal explicitly, with what `subscribe` sends, and answer under the
    -- request's id with the result in a list of one.
    pub subscribe-requested :
        (s s' : Session doc.Json) (n : ℕ) (id : String)
        → s.command_client ≡ some in_band
        → s'.local_stream_id ≡ s.remote_stream_id
        → let method = joined s.remote_stream_id ".subscribe" in
          let params = doc.array (doc.text id ∷ []) in
          let m = request_message doc n method params in
          (on_signal_subscribe_requested doc s id ≡ requested in_band method params ∷ [])
          × (on_peer_metadata_received doc bytes endpoint s' 0 "request" m
              ≡ returned (
                record s' { local = (subscribe s'.local id true).0 },
                map sent (subscribe s'.local id true).2
                    ++ response
                        (doc.unsigned n)
                        (outcome (results ((subscribe s'.local id true).1 ∷ [])))
                      ∷ [],
              ))
    unfolding on_signal_subscribe_requested on_peer_metadata_received handle_stream_message
        handle_command_interface_request request_reply do_command_interface
    subscribe-requested s s' n id e h =
        let method = joined s.remote_stream_id ".subscribe" in
        let params = doc.array (doc.text id ∷ []) in
        let (o, c, a, p, i) = request_fields n method params in
        (
          rw (on_signal_subscribe_requested, e) refl,
          rw
              (
                handle_command_interface_request,
                request_reply,
                o,
                c,
                a,
                p,
                i,
                json.string_value method,
                do_command_interface,
                h,
                (same_id_iff method method).1 refl,
                subscribe_one s'.local id,
              )
              refl,
        )
