-- ===== src/Connection/Messages.antt =====
-- The metadata messages of a remote signal, src/detail/remote_signal_impl.cpp, with the JSON that they
-- carry and the signal's own JSON metadata; the search of src/connection.cpp for a table, the message
-- of src/detail/in_band_command_interface_client.cpp, and the JSON library of the builders as the
-- connection's handlers call it.
use Prim.Native.String.{String}
use ws_streaming.Prelude.{
  ◌==◌, ℕ, List, [], ◌∷◌, Bool, true, false, Option, none, some, if◌then◌else◌,
}
use ws_streaming.Signals.Ids.{same_id}
use ws_streaming.Signals.RemoteSignal
use ws_streaming.Signals.RemoteSignal.{RemoteSignal}
use ws_streaming.Signals.RemoteSignal.Data.{handle_signal, handle_data_type, handle_time}
use ws_streaming.Metadata.Document.{Library}
use ws_streaming.Metadata.Read.{metadata, unknown_t}
use ws_streaming.Metadata.Read.Sizes.{json_ptr, read_metadata, signal_rate_ticks}
use ws_streaming.Metadata.Build.{
  object, builder_from_json, set_data_type, set_endian, tcp_signal_rate,
}
use ws_streaming.Signals.RemoteContainer.{Entry}
use ws_streaming.Connection.Receive.{Remote}
use ws_streaming.Connection.Store.{put}
use ws_streaming.Connection.Handlers.{find_table}
use ws_streaming.Connection.Parameters.{JsonValues}

abbrev pub json_values : Library → JsonValues
json_values doc = record {
  Json = doc.Json;
  is_object = doc.is_object;
  is_array = doc.is_array;
  is_string = doc.is_string;
  is_number_integer = doc.is_number_integer;
  null = doc.null;
  contains = doc.contains;
  field = doc.at;
  elements = doc.elements;
  get_string = doc.get_string;
  of_string = doc.text;
  array = doc.array;
  object = λ k v. doc.set doc.empty_object k v;
}

-- The entry to which a pointer is, where it is still there.
unfoldable pub entry_at : ℕ → List Entry → Option Entry
entry_at address [] = none
entry_at address (e ∷ es) =
    let rest = entry_at address es in if e.address == address then some e else rest

-- `on_table_sought` with the signal at the address as it is by then, and the signal itself left out.
unfoldable pub seek : Remote → ℕ → RemoteSignal → String → Option (ℕ × ℕ)
unfolding find_table
seek r address s id =
    let signals = put r.signals address s in
    elim (find_table (record r { signals = signals }) id r.container.by_id) [
      | none ↦ none
      | some owner ↦ if owner == address then none else some (owner, (signals owner).table_made)
    ]

module _ (doc : Library) where
  -- The parameters of a request of the client in the stream.
  unfoldable pub request_message : ℕ → String → doc.Json → doc.Json
  unfolding object
  request_message id method params = object doc (
      ("jsonrpc", doc.text "2.0")
      ∷ ("id", doc.unsigned id)
      ∷ ("method", doc.text method)
      ∷ ("params", params)
      ∷ [])

  -- A signal with its metadata, the slots that are called, and whether `on_metadata_changed` is.
  pub record Handled : Type 0 where
    pub signal : RemoteSignal
    pub document : doc.Json
    pub events : List RemoteSignal.Event
    pub changed : Bool

  -- `json_ptr` of a text.
  unfoldable pub json_text : doc.Json → String → String → String
  json_text json pointer fallback =
      let v = doc.value_pointer json pointer doc.null in
      if doc.is_string v then doc.get_string v else fallback

  unfoldable pub handle_signal_rate : RemoteSignal → doc.Json → doc.Json → Option Handled
  unfolding signal_rate_ticks tcp_signal_rate builder_from_json metadata read_metadata
  handle_signal_rate s document params =
      let document' = metadata doc (tcp_signal_rate doc (builder_from_json doc document) params) in
      elim (signal_rate_ticks doc document' 1 1000000000) [
        | none ↦ none
        | some ticks ↦ some (record {
          signal = record s { metadata = read_metadata doc document'; tcp_delta = ticks };
          document = document';
          events = [];
          changed = true;
        })
      ]

  unfoldable pub handle_data_message : RemoteSignal → doc.Json → doc.Json → Handled
  unfolding handle_data_type builder_from_json set_data_type set_endian metadata json_text
      read_metadata
  handle_data_message s document params =
      let built = builder_from_json doc document in
      let typed = set_data_type doc built (json_text params "/valueType" unknown_t) in
      let document' = metadata doc (set_endian doc typed (json_text params "/endian" "unknown")) in
      record {
        signal = handle_data_type s (read_metadata doc document');
        document = document';
        events = [];
        changed = true;
      }

  unfoldable pub handle_signal_message :
      RemoteSignal → String → (RemoteSignal → String → Option (ℕ × ℕ)) → doc.Json → Handled
  unfolding handle_signal metadata read_metadata
  handle_signal_message s id sought params =
      let m = read_metadata doc (metadata doc params) in
      record {
        signal = handle_signal s id m (sought (handle_signal s id m none) m.table_id);
        document = metadata doc params;
        events = [];
        changed = true;
      }

  -- none is an exception. `sought` is the search for a table, with the signal as it is by then.
  unfoldable pub handle_metadata :
      RemoteSignal
      → doc.Json
      → String
      → (RemoteSignal → String → Option (ℕ × ℕ))
      → String
      → doc.Json
      → Option Handled
  unfolding handle_time json_ptr handle_signal_rate handle_data_message handle_signal_message
  handle_metadata s document id sought method params =
      let (on, subscribed) = RemoteSignal.handle_subscribe s in
      let (off, unsubscribed) = RemoteSignal.handle_unsubscribe s in
      let rated = handle_signal_rate s document params in
      let late =
        handle_time s (json_ptr doc params "/stamp/seconds" 0)
          (json_ptr doc params "/stamp/fraction" 0) in
      if same_id method "subscribe"
      then some (record { signal = on; document = document; events = subscribed; changed = false })
      else if same_id method "unsubscribe"
      then some
          (record { signal = off; document = document; events = unsubscribed; changed = false })
      else if same_id method "signal"
      then some (handle_signal_message s id sought params)
      else if same_id method "signalRate"
      then rated
      else if same_id method "data"
      then some (handle_data_message s document params)
      else if same_id method "time"
      then some (record { signal = late; document = document; events = []; changed = false })
      else some (record { signal = s; document = document; events = []; changed = false })
