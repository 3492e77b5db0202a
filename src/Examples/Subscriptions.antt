-- ===== src/Examples/Subscriptions.antt =====
-- Concrete runs of the subscriptions at the two ends of a connection.
use ws_streaming.Prelude.{
  ℕ, ◌+◌, ◌-◌, ◌^◌, ◌≡◌, refl, List, [], ◌∷◌, ◌++◌, Bool, true, false, some, arith,
}
use ws_streaming.Signals.LocalContainer.{
  RegisteredLocalSignal, registered_local_signal, find_local_signal_id,
}
use ws_streaming.Signals.RemoteSignal.{remote_signal_impl}
use ws_streaming.Connection.Receive.{Remote}
use ws_streaming.Connection.Local.{Local, Outgoing, store, announce}
use ws_streaming.Connection.Local.Subscribe.{
  is_subscribed, subscribe, subscribe_domain, unsubscribe_with,
}
use ws_streaming.Connection.Local.Subscribe.Invariant.{
  All, IsConnected, HasRoom, subscribe-IsConnected,
}
use ws_streaming.Connection.Local.Subscribe.Fuel.{unsubscribe_ends}
use ws_streaming.Connection.Local.Subscribe.Wrap.{unsubscribe_wraps}
use ws_streaming.Connection.Handlers.{
  Notice, handle_available, handle_unavailable, handle_subscribe, on_peer_closed,
}
use ws_streaming.Connection.Handlers.Entries.{OneEach}
use ws_streaming.Connection.Handlers.Visibility.{InTurn, visible}
use ws_streaming.Connection.Handlers.Turns
use ws_streaming.Connection.Handlers.Turns.{
  Runs, availables, unavailables, subscribes, closes, run-InTurn,
}
use ws_streaming.Connection.CommandClient.{
  Client, Call, client, async_request, cancel, handle_response,
}
use ws_streaming.Connection.CommandClient.Calls.{
  Reach, start, requests, cancels, responses, called, waiting, called_once,
}
use ws_streaming.Connection.Hello.{receive_messages, announce-visible}
use ws_streaming.Examples.Libraries.{no_metadata}

abbrev time_entry : RegisteredLocalSignal
time_entry = registered_local_signal (record { address = 0; id = "time" }) 1

abbrev value_entry : RegisteredLocalSignal
value_entry = registered_local_signal (record { address = 1; id = "value" }) 2

-- The signal "value" has the table of the signal "time".
abbrev local : Local
local = record {
  container = record { signals = time_entry ∷ value_entry ∷ []; next_signo = 3 };
  signals_of = λ _. record {
    metadata = record no_metadata { linear = record no_metadata.linear { table_id = "time" } };
    subscribe_count = 0;
  };
  hello_sent = true;
}

local-HasRoom : All HasRoom local.signals
local-HasRoom = (record { room = omega arith }, (record { room = omega arith }, tt))

local-IsConnected : All IsConnected local.signals
unfolding is_subscribed
local-IsConnected = (record { connected_iff = refl }, (record { connected_iff = refl }, tt))

subscribe-IsConnected_example : All IsConnected (subscribe local "value" true).0.signals
subscribe-IsConnected_example =
    subscribe-IsConnected local "value" true local-HasRoom local-IsConnected

unsubscribe_ends_example :
    (r : Local × Bool × List Outgoing) × (unsubscribe_with 4 local "value" true ≡ some r)
unsubscribe_ends_example = unsubscribe_ends 4 local "value" true (omega arith)

abbrev wrapped : Local
wrapped = record local {
  container = record {
    signals = record time_entry { implicit_subscribe_count = 2 ^ 32 - 1 } ∷ value_entry ∷ [];
    next_signo = 3;
  };
}

time_found : find_local_signal_id local.signals "time" ≡ some time_entry
unfolding find_local_signal_id
time_found = refl

wrapped_found :
    find_local_signal_id wrapped.signals "time"
    ≡ some (record time_entry { implicit_subscribe_count = 2 ^ 32 - 1 })
unfolding find_local_signal_id
wrapped_found = refl

unsubscribe_wraps_example :
    (unsubscribe_with 4 local "time" false
      ≡ some (store local (record time_entry { implicit_subscribe_count = 2 ^ 32 - 1 }), false, []))
    × (subscribe_domain wrapped "time"
        ≡ (store wrapped (record time_entry { implicit_subscribe_count = 0 }), []))
unsubscribe_wraps_example =
    unsubscribe_wraps 3 local wrapped "time" time_entry time_found refl wrapped_found

-- Nothing is known of the other end.
abbrev remote : Remote
remote = record {
  container = record { by_id = []; by_signo = []; next_address = 0 };
  signals = λ _. remote_signal_impl no_metadata;
}

-- A signal is subscribed before it is announced; another is announced and withdrawn again.
abbrev subscribed : Remote
subscribed = (handle_subscribe remote 1 "value").0

abbrev announced : Remote
announced = (handle_available subscribed ("value" ∷ "time" ∷ [])).0

abbrev withdrawn : Remote
withdrawn = (handle_unavailable announced ("time" ∷ [])).0

abbrev notices : List Notice
notices =
    ((([] ++ (handle_subscribe remote 1 "value").1)
        ++ (handle_available subscribed ("value" ∷ "time" ∷ [])).1)
      ++ (handle_unavailable announced ("time" ∷ [])).1)
    ++ (on_peer_closed withdrawn).1

runs : Runs remote (on_peer_closed withdrawn).0 notices
runs =
    closes withdrawn
      ((([] ++ (handle_subscribe remote 1 "value").1)
          ++ (handle_available subscribed ("value" ∷ "time" ∷ [])).1)
        ++ (handle_unavailable announced ("time" ∷ [])).1)
      (unavailables announced
        (([] ++ (handle_subscribe remote 1 "value").1)
          ++ (handle_available subscribed ("value" ∷ "time" ∷ [])).1)
        ("time" ∷ [])
        (availables subscribed ([] ++ (handle_subscribe remote 1 "value").1) ("value" ∷ "time" ∷ [])
          (subscribes remote [] 1 "value" Turns.start)))

remote-OneEach : OneEach remote.container.by_id
unfolding OneEach
remote-OneEach = tt

run-InTurn_example : InTurn remote (on_peer_closed withdrawn).0 notices
run-InTurn_example = run-InTurn remote (on_peer_closed withdrawn).0 notices remote-OneEach runs

announce-visible_example :
    All
      (λ e. visible (receive_messages remote (announce local).1).0 e.signal.id ≡ true)
      local.signals
announce-visible_example = announce-visible local remote

-- Two requests, the second of which is answered; the first is given up.
abbrev asked : Client ℕ
asked =
    (async_request {Json = ℕ} (async_request {Json = ℕ} (client {Handler = ℕ}) "s.subscribe" 0 7).0
      "s.unsubscribe" 0 8).0

asked-reached : Reach {Handler = ℕ} {Json = ℕ} asked 2 []
asked-reached =
    requests (async_request {Json = ℕ} client "s.subscribe" 0 7).0 1 [] "s.unsubscribe" 0 8
      (requests client 0 [] "s.subscribe" 0 7 start)

abbrev answered : Client ℕ
answered = (handle_response {Json = ℕ} asked (some 2) 1).0

abbrev calls : List (Call ℕ ℕ)
calls = ([] ++ (handle_response {Json = ℕ} asked (some 2) 1).1) ++ (cancel {Json = ℕ} answered).1

cancelled-reached : Reach (cancel {Json = ℕ} answered).0 2 calls
cancelled-reached =
    cancels answered 2 ([] ++ (handle_response {Json = ℕ} asked (some 2) 1).1)
      (responses asked 2 [] (some 2) 1 asked-reached)

called_once_example : called 2 calls + waiting 2 (cancel {Json = ℕ} answered).0.requests ≡ 1
called_once_example =
    called_once (cancel {Json = ℕ} answered).0 2 calls 2 cancelled-reached (omega arith)
