-- ===== src/Connection/Dispatch.antt =====
-- The messages that a connection receives, src/connection.cpp: the dispatch by method, the other end's
-- version and interfaces, and the requests of the command interface. A message about one signal is
-- handled by the signal; a response is given to the client of the requests. The JSON library is an
-- argument.
pub mod Answers
pub mod Rejects
pub mod Requests
pub mod Subscribing
use Prim.Native.String.{String}
use ws_streaming.Prelude.{
  ℕ, List, [], ◌∷◌, ◌++◌, map, Bool, true, false, not, ◌&&◌, ◌||◌, Option, none, some,
  if◌then◌else◌, ◌==◌,
}
use ws_streaming.Signals.Ids.{same_id, joined}
use ws_streaming.Signals.RemoteContainer
use ws_streaming.Signals.RemoteContainer.{Entry}
use ws_streaming.Signals.RemoteSignal.{RemoteSignal}
use ws_streaming.Semver.{Semver, try_parse, ge}
use ws_streaming.Connection.Receive.{Remote}
use ws_streaming.Connection.Local.{Local, Outgoing, announce}
use ws_streaming.Connection.Handlers.{
  Notice, slots, find_table, handle_available, handle_unavailable, handle_subscribe,
  handle_unsubscribe,
}
use ws_streaming.Connection.Messages.{json_values, Handled, handle_metadata, seek, entry_at}
use ws_streaming.Connection.Store.{put}
use ws_streaming.Metadata.Document.{Library}
use ws_streaming.Connection.Parameters.{
  CommandResult, read_ids, read_signal_id, do_command_interface_subscribe,
  do_command_interface_unsubscribe,
}

-- What a response says: what the command returned or threw, or the request's own error.
pub data Reply : Type 0 where
  outcome : CommandResult → Reply
  method_not_found invalid_request : Reply

-- A client of the other end's command interface; the second has the address, the port, the method,
-- the path and the version.
pub data CommandInterface : Type 0 where
  in_band : CommandInterface
  over_http : String → String → String → String → String → CommandInterface

-- What a handler does: it returns, an exception leaves it, or it reads through a pointer to an entry
-- that has been erased, which is undefined.
pub data Result (A : Type 0) : Type 0 where
  returned : A → Result A
  thrown undefined_read : Result A

-- `documents` are the metadata of the signals, by their addresses, as JSON; that of a signal to come
-- is an empty object.
pub record Session (Json : Type 0) : Type 0 where
  pub is_client : Bool
  pub local_stream_id : String
  pub command_interfaces : Json
  pub remote_stream_id : String
  pub api_version : Semver
  pub command_client : Option CommandInterface
  pub local : Local
  pub remote : Remote
  pub documents : ℕ → Json

pub data Output (Json : Type 0) : Type 0 where
  sent : Outgoing → Output Json
  sent_version : Output Json
  sent_init : String → Json → Output Json
  response : Json → Reply → Output Json
  noticed : Notice → Output Json
  changed : ℕ → Output Json
  answered : Json → Output Json
  requested : CommandInterface → String → Json → Output Json

module _ (doc : Library) where
  -- `value(key, nullptr)` of an object.
  unfoldable pub value_or_null : doc.Json → String → doc.Json
  value_or_null params key = if doc.contains params key then doc.at params key else doc.null

  unfoldable pub has_string : doc.Json → String → Bool
  has_string params key = doc.contains params key && doc.is_string (doc.at params key)

  unfoldable pub is_http_interface : doc.Json → Bool
  unfolding has_string
  is_http_interface v =
      doc.is_object v
      && has_string v "httpMethod"
      && has_string v "httpPath"
      && has_string v "httpVersion"
      && doc.contains v "port"
      && (doc.is_string (doc.at v "port") || doc.is_number_integer (doc.at v "port"))

  -- The address of the other end is none where asking the socket throws. The port of an integer is
  -- the text of `is_number_integer()`, which is true here.
  unfoldable pub create_client : Option String → doc.Json → Option CommandInterface
  unfolding is_http_interface
  create_client endpoint interfaces =
      let http = doc.at interfaces "jsonrpc-http" in
      let port =
        if doc.is_number_integer (doc.at http "port")
        then "1"
        else doc.get_string (doc.at http "port") in
      if not (doc.is_object interfaces)
      then none
      else if doc.contains interfaces "jsonrpc"
      then some in_band
      else if doc.contains interfaces "jsonrpc-http" && is_http_interface http
      then elim endpoint [
        | none ↦ none
        | some address ↦ some (
            over_http address port (doc.get_string (doc.at http "httpMethod"))
              (doc.get_string (doc.at http "httpPath"))
              (doc.get_string (doc.at http "httpVersion")))
      ]
      else none

  unfoldable pub do_hello : Session doc.Json → Session doc.Json × List (Output doc.Json)
  unfolding announce
  do_hello s =
      let (local', os) = announce s.local in
      (
        record s { local = local' },
        sent_version ∷ sent_init s.local_stream_id s.command_interfaces ∷ map sent os,
      )

  unfoldable pub do_command_interface :
      Session doc.Json → String → doc.Json → Session doc.Json × Reply × List (Output doc.Json)
  unfolding do_command_interface_subscribe do_command_interface_unsubscribe
  do_command_interface s method params =
      let (l, ok, os) = do_command_interface_subscribe (json_values doc) s.local params in
      let (l', ok', os') = do_command_interface_unsubscribe (json_values doc) s.local params in
      if same_id method (joined s.local_stream_id ".subscribe")
      then (record s { local = l }, outcome ok, map sent os)
      else if same_id method (joined s.local_stream_id ".unsubscribe")
      then (record s { local = l' }, outcome ok', map sent os')
      else (s, method_not_found, [])

  -- The command of a request, or its error.
  unfoldable pub request_reply :
      Session doc.Json → doc.Json → Session doc.Json × Reply × List (Output doc.Json)
  unfolding do_command_interface value_or_null has_string
  request_reply s params =
      if not (doc.is_object params) || not (has_string params "method")
      then (s, invalid_request, [])
      else do_command_interface s (doc.get_string (doc.at params "method"))
          (value_or_null params "params")

  -- The id of the response is read of the parameters, which throws unless they are an object.
  unfoldable pub handle_command_interface_request :
      Session doc.Json → doc.Json → Result (Session doc.Json × List (Output doc.Json))
  unfolding request_reply value_or_null
  handle_command_interface_request s params =
      let (s', reply, out) = request_reply s params in
      if doc.is_object params
      then returned (s', out ++ response (value_or_null params "id") reply ∷ [])
      else thrown

  -- Only a client in the stream is given the response.
  unfoldable pub give_response : Option CommandInterface → doc.Json → List (Output doc.Json)
  give_response (some in_band) params = answered params ∷ []
  give_response _ params = []

  unfoldable pub handle_command_interface_response :
      Session doc.Json → doc.Json → Session doc.Json × List (Output doc.Json)
  unfolding give_response
  handle_command_interface_response s params = (s, give_response s.command_client params)

  -- The session after a signal has handled a message.
  unfoldable pub store_signal :
      Session doc.Json → ℕ → Handled doc → Session doc.Json × List (Output doc.Json)
  unfolding slots
  store_signal s address h = (
    record s {
      remote = record s.remote { signals = put s.remote.signals address h.signal };
      documents = put s.documents address h.document;
    },
    map noticed (slots address h.events) ++ (if h.changed then changed address ∷ [] else []),
  )

  -- The message handled by the signal of an entry.
  unfoldable pub handle_at :
      Session doc.Json
      → ℕ
      → String
      → String
      → doc.Json
      → Result (Session doc.Json × List (Output doc.Json))
  unfolding handle_metadata seek store_signal
  handle_at s address id method params =
      elim (handle_metadata doc (s.remote.signals address) (s.documents address) id
        (seek s.remote address) method params) [
          | none ↦ thrown
          | some h ↦ returned (store_signal s address h)
        ]

  unfoldable pub dispatch_metadata :
      Session doc.Json → ℕ → String → doc.Json → Result (Session doc.Json × List (Output doc.Json))
  unfolding handle_at entry_at
  dispatch_metadata s signo method params =
      elim (RemoteContainer.find_remote_signal s.remote.container signo) [
        | none ↦ returned (s, [])
        | some address ↦ elim (entry_at address s.remote.container.by_id) [
          | none ↦ undefined_read
          | some e ↦ handle_at s address e.id method params
        ]
      ]

  -- The request that is made of the other end, with a list of one id, if there is a client.
  unfoldable pub request_signal : Session doc.Json → String → String → List (Output doc.Json)
  request_signal s verb id = elim s.command_client [
    | none ↦ []
    | some client ↦
        requested client (joined s.remote_stream_id verb) (doc.array (doc.text id ∷ [])) ∷ []
  ]

  unfoldable pub on_signal_subscribe_requested : Session doc.Json → String → List (Output doc.Json)
  unfolding request_signal
  on_signal_subscribe_requested s id = request_signal s ".subscribe" id

  unfoldable pub on_signal_unsubscribe_requested :
      Session doc.Json → String → List (Output doc.Json)
  unfolding request_signal
  on_signal_unsubscribe_requested s id = request_signal s ".unsubscribe" id

  -- What the remote side does with a message.
  unfoldable pub on_remote :
      Session doc.Json → Remote × List Notice → Session doc.Json × List (Output doc.Json)
  on_remote s (r, notices) = (record s { remote = r }, map noticed notices)

  -- A client says hello to an end of version 2.0.0 or later.
  unfoldable pub greet : Session doc.Json → Session doc.Json × List (Output doc.Json)
  unfolding do_hello ge
  greet s =
      if s.is_client && ge s.api_version (record { major = 2; minor = 0; revision = 0 })
      then do_hello s
      else (s, [])

  module _ (bytes : String → List ℕ) (endpoint : Option String) where
    unfoldable pub handle_api_version : Session doc.Json → doc.Json → Session doc.Json
    unfolding try_parse has_string
    handle_api_version s params =
        if doc.is_object params && has_string params "version"
        then record s {
          api_version = elim (try_parse (bytes (doc.get_string (doc.at params "version")))) [
            | none ↦ record { major = 0; minor = 0; revision = 0 }
            | some v ↦ v
          ];
        }
        else s

    unfoldable pub handle_init :
        Session doc.Json → doc.Json → Session doc.Json × List (Output doc.Json)
    unfolding greet create_client has_string
    handle_init s params =
        let named : Session doc.Json =
          if has_string params "streamId"
          then record s { remote_stream_id = doc.get_string (doc.at params "streamId") }
          else s in
        let connected : Session doc.Json =
          if doc.contains params "commandInterfaces"
          then record named {
            command_client = create_client endpoint (doc.at params "commandInterfaces");
          }
          else named in
        if not (doc.is_object params) then (s, []) else greet connected

    -- The messages that are not about one signal.
    unfoldable pub handle_stream_message :
        Session doc.Json → String → doc.Json → Result (Session doc.Json × List (Output doc.Json))
    unfolding handle_available handle_unavailable read_ids on_remote handle_api_version handle_init
        handle_command_interface_request handle_command_interface_response
    handle_stream_message s method params =
        if same_id method "apiVersion"
        then returned (handle_api_version s params, [])
        else if same_id method "init"
        then returned (handle_init s params)
        else if same_id method "available"
        then returned (on_remote s (handle_available s.remote (read_ids (json_values doc) params)))
        else if same_id method "unavailable"
        then returned
            (on_remote s (handle_unavailable s.remote (read_ids (json_values doc) params)))
        else if same_id method "request"
        then handle_command_interface_request s params
        else if same_id method "response"
        then returned (handle_command_interface_response s params)
        else returned (s, [])

    unfoldable pub on_peer_metadata_received :
        Session doc.Json
        → ℕ
        → String
        → doc.Json
        → Result (Session doc.Json × List (Output doc.Json))
    unfolding handle_subscribe handle_unsubscribe read_signal_id on_remote dispatch_metadata
        handle_stream_message
    on_peer_metadata_received s signo method params =
        if same_id method "subscribe"
        then returned (
            on_remote s (handle_subscribe s.remote signo (read_signal_id (json_values doc) params)))
        else if same_id method "unsubscribe"
        then (elim (handle_unsubscribe s.remote signo) [
          | none ↦ undefined_read
          | some remote' ↦ returned (on_remote s remote')
        ])
        else if not (signo == 0)
        then dispatch_metadata s signo method params
        else handle_stream_message s method params
