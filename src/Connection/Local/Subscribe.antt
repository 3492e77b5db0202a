-- ===== src/Connection/Local/Subscribe.antt =====
-- `connection::subscribe` and `connection::unsubscribe` of src/connection.cpp. They call themselves
-- for the domain signal: `subscribe` once, `unsubscribe` along the chain of table ids, on fuel.
pub mod Fuel
pub mod Invariant
pub mod Wrap
use Prim.Native.String.{String}
use ws_streaming.Prelude.{
  ℕ, zero, suc, ◌+◌, ◌-◌, ◌%◌, ◌^◌, List, [], ◌∷◌, ◌++◌, length, Bool, true, false, Option, none,
  some, ◌==◌, ltb, not, ◌&&◌, ◌||◌, if◌then◌else◌,
}
use ws_streaming.Signals.Metadata.{Metadata}
use ws_streaming.Signals.LocalContainer.{RegisteredLocalSignal, find_local_signal_id}
use ws_streaming.Connection.Local.{
  Local, Outgoing, subscribe_message, unsubscribe_message, signal_message, metadata_of, store,
  has_domain, refresh_local_signal_bindings, hold, release,
}

unfoldable pub is_subscribed : RegisteredLocalSignal → Bool
is_subscribed e = e.is_explicitly_subscribed || ltb 0 e.implicit_subscribe_count

unfoldable pub count_up : RegisteredLocalSignal → Bool → RegisteredLocalSignal
count_up e is_explicit =
    if is_explicit
    then record e { is_explicitly_subscribed = true }
    else record e { implicit_subscribe_count = (e.implicit_subscribe_count + 1) % 2 ^ 32 }

-- The count wraps below 0.
unfoldable pub count_down : RegisteredLocalSignal → Bool → RegisteredLocalSignal
count_down e is_explicit =
    if is_explicit then record e { is_explicitly_subscribed = false } else record e {
      implicit_subscribe_count = (e.implicit_subscribe_count + (2 ^ 32 - 1)) % 2 ^ 32;
    }

-- The new holder, and the end of the one that was in its place.
unfoldable pub take_holder : Local → RegisteredLocalSignal → Local
take_holder c e =
    let held = hold c e.signal.address in
    if e.connected then release held e.signal.address else held

-- The metadata as sent on a subscription, with the value index put in.
unfoldable pub with_value_index : Metadata → ℕ → Metadata
with_value_index m i = record m { linear = record m.linear { value_index = some i } }

-- The messages about a signal that is newly subscribed, and its slots.
unfoldable pub start_sending : Local → RegisteredLocalSignal → Local × List Outgoing
unfolding with_value_index
start_sending c e =
    let e' : RegisteredLocalSignal = record (refresh_local_signal_bindings c e) {
      connected = true;
    } in
    (
      store c e',
      record { signo = e.signo; message = subscribe_message e.signal.id }
          ∷ record {
            signo = e.signo;
            message = signal_message (with_value_index (metadata_of c e) e.value_index);
          }
          ∷ [],
    )

-- `nested` is the call for the domain signal.
unfoldable pub subscribe_new :
    (Local → String → Local × List Outgoing)
    → Local
    → RegisteredLocalSignal
    → String
    → Bool
    → Local × List Outgoing
unfolding take_holder start_sending
subscribe_new nested c e signal_id is_explicit =
    let held = take_holder c e in
    let table_id = (metadata_of c e).table_id in
    let (c', first) =
      if is_explicit && has_domain table_id signal_id then nested held table_id else (held, []) in
    let (c'', own) = start_sending c' e in (c'', first ++ own)

unfoldable pub subscribe_with :
    (Local → String → Local × List Outgoing) → Local → String → Bool → Local × Bool × List Outgoing
unfolding count_up
subscribe_with nested c signal_id is_explicit = elim (find_local_signal_id c.signals signal_id) [
  | none ↦ (c, false, [])
  | some e ↦
      let e' = count_up e is_explicit in
      let c' = store c e' in
      let (c'', sent) = subscribe_new nested c' e' signal_id is_explicit in
      if is_subscribed e then (c', false, []) else (c'', true, sent)
]

-- The call for the domain signal, which makes no further one.
unfoldable pub subscribe_domain : Local → String → Local × List Outgoing
unfolding subscribe_with
subscribe_domain c table_id =
    let (c', _, sent) = subscribe_with (λ d _. (d, [])) c table_id false in (c', sent)

unfoldable pub subscribe : Local → String → Bool → Local × Bool × List Outgoing
unfolding subscribe_with subscribe_domain
subscribe c signal_id is_explicit = subscribe_with subscribe_domain c signal_id is_explicit

-- The slots and the holder of an entry go.
unfoldable pub drop_holder : Local → RegisteredLocalSignal → Local
drop_holder c e =
    let c' = store c (record e { connected = false }) in
    if e.connected then release c' e.signal.address else c'

-- The message to the other end, put before what the domain signal sends.
unfoldable pub report_dropped :
    RegisteredLocalSignal
    → Option (Local × Bool × List Outgoing)
    → Option (Local × Bool × List Outgoing)
report_dropped e none = none
report_dropped e (some (c, _, sent)) =
    some (c, true, record { signo = e.signo; message = unsubscribe_message e.signal.id } ∷ sent)

-- The cancellation at the entry of the signal; `nested` is the call for the domain signal.
unfoldable pub unsubscribe_entry :
    (Local → String → Option (Local × Bool × List Outgoing))
    → Local
    → RegisteredLocalSignal
    → String
    → Bool
    → Option (Local × Bool × List Outgoing)
unfolding count_down drop_holder report_dropped
unsubscribe_entry nested c e signal_id is_explicit =
    let e' = count_down e is_explicit in
    let c' = store c e' in
    let table_id = (metadata_of c e').table_id in
    elim (is_subscribed e') [
      | true ↦ some (c', false, [])
      | false ↦ report_dropped e' (elim (has_domain table_id signal_id) [
        | true ↦ nested (drop_holder c' e') table_id
        | false ↦ some (drop_holder c' e', false, [])
      ])
    ]

-- `none` where the fuel is used up.
unfoldable pub unsubscribe_with : ℕ → Local → String → Bool → Option (Local × Bool × List Outgoing)
unfolding unsubscribe_entry
unsubscribe_with zero c signal_id is_explicit = none
unsubscribe_with (suc fuel) c signal_id is_explicit =
    elim (find_local_signal_id c.signals signal_id) [
      | none ↦ some (c, false, [])
      | some e ↦
          unsubscribe_entry (λ d table_id. unsubscribe_with fuel d table_id false) c e signal_id
            is_explicit
    ]

-- The fuel is enough, and the last case is never reached.
unfoldable pub unsubscribe : Local → String → Bool → Local × Bool × List Outgoing
unfolding unsubscribe_with
unsubscribe c signal_id is_explicit =
    elim (unsubscribe_with (length c.signals + 2) c signal_id is_explicit) [
      | some r ↦ r
      | none ↦ (c, false, [])
    ]
