-- ===== src/Examples/Dispatch.antt =====
-- Messages that arrive at a connection with one signal.
use ws_streaming.Prelude.{◌≡◌, refl, true, ◌∷◌, [], ◌++◌, none, some, false, map}
use ws_streaming.Signals.Ids.{joined}
use ws_streaming.Signals.LocalContainer.{registered_local_signal}
use ws_streaming.Connection.Parameters.{results}
use ws_streaming.Signals.RemoteSignal.{remote_signal_impl}
use ws_streaming.Connection.Messages.{request_message}
use ws_streaming.Connection.Dispatch.{
  Session, in_band, outcome, sent, response, requested, returned, on_peer_metadata_received,
  on_signal_subscribe_requested,
}
use ws_streaming.Connection.Dispatch.Subscribing.{subscribe-requested}
use ws_streaming.Connection.Local.Subscribe.{subscribe}
use ws_streaming.Examples.Documents.{documents, documents-IsLibrary, documents-IsJson}
use ws_streaming.Examples.Libraries.{no_metadata}

abbrev session : Session documents.Json
session = record {
  is_client = false;
  local_stream_id = "stream";
  command_interfaces = documents.null;
  remote_stream_id = "";
  api_version = record { major = 2; minor = 0; revision = 0 };
  command_client = none;
  local = record {
    container = record {
      signals = registered_local_signal (record { address = 0; id = "value" }) 1 ∷ [];
      next_signo = 2;
    };
    signals_of = λ a. record { metadata = no_metadata; subscribe_count = 0 };
    hello_sent = false;
  };
  remote = record {
    container = record { by_id = []; by_signo = []; next_address = 0 };
    signals = λ a. remote_signal_impl no_metadata;
  };
  documents = λ a. documents.empty_object;
}

-- A session with a signal of the other end.
abbrev subscribed : Session documents.Json
subscribed = record session {
  remote = record session.remote {
    container = record {
      by_id = record { id = "other"; address = 0; signo = 5; hidden = true } ∷ [];
      by_signo = (5, 0) ∷ [];
      next_address = 1;
    };
  };
}

abbrev no_samples : documents.Json
no_samples = documents.set documents.empty_object "samples" (documents.unsigned 0)

abbrev subscriber : Session documents.Json
subscriber = record session { remote_stream_id = "stream"; command_client = some in_band }

subscribe-requested_example :
    let method = joined subscriber.remote_stream_id ".subscribe" in
    let params = documents.array (documents.text "value" ∷ []) in
    let m = request_message documents 7 method params in
    (on_signal_subscribe_requested documents subscriber "value"
      ≡ requested in_band method params ∷ [])
    × (on_peer_metadata_received documents (λ s. []) none session 0 "request" m
        ≡ returned (
          record session { local = (subscribe session.local "value" true).0 },
          map sent (subscribe session.local "value" true).2
              ++ response
                  (documents.unsigned 7)
                  (outcome (results ((subscribe session.local "value" true).1 ∷ [])))
                ∷ [],
        ))
subscribe-requested_example =
    subscribe-requested documents documents-IsLibrary documents-IsJson (λ s. []) none subscriber
      session 7 "value" refl refl
