-- ===== src/Connection/Local.antt =====
-- The local side of a connection, src/connection.cpp: its signals, their tables and the subscriptions
-- of the other end. What is sent is returned in order. The holder and the two slots of an entry are
-- its field `connected`; `signals_of` is the application's signal at an address, with its metadata
-- and its number of subscriptions, which all connections share. `unsigned` has 32 bits.
pub mod Subscribe
use Prim.Native.String.{String}
use ws_streaming.Prelude.{
  ℕ, ◌+◌, ◌-◌, ◌%◌, ◌^◌, List, [], ◌∷◌, map, Bool, true, false, Option, none, some, ◌==◌, not, ◌&&◌,
  if◌then◌else◌,
}
use ws_streaming.Signals.Ids.{same_id, is_empty}
use ws_streaming.Signals.LinearTable
use ws_streaming.Signals.LinearTable.{LinearTable}
use ws_streaming.Signals.Metadata
use ws_streaming.Signals.Metadata.{Metadata}
use ws_streaming.Signals.LocalContainer.{
  LocalSignal, RegisteredLocalSignal, Container, find_local_signal_id,
}
use ws_streaming.Signals.LocalContainer
use ws_streaming.Connection.Store.{put}

-- The method of `send_metadata` with its parameters.
pub data Message : Type 0 where
  subscribe_message unsubscribe_message : String → Message
  signal_message : Metadata → Message
  available unavailable : List String → Message

pub record Outgoing : Type 0 where
  pub signo : ℕ
  pub message : Message

-- A `local_signal` of the application.
pub record AppSignal : Type 0 where
  pub metadata : Metadata
  pub subscribe_count : ℕ

pub record Local : Type 0 where
  pub container : Container
  pub open container use {signals}
  pub signals_of : ℕ → AppSignal
  pub hello_sent : Bool

unfoldable pub metadata_of : Local → RegisteredLocalSignal → Metadata
metadata_of c e = (c.signals_of e.signal.address).metadata

-- The entry in place of the one with its number.
unfoldable pub replace :
    RegisteredLocalSignal → List RegisteredLocalSignal → List RegisteredLocalSignal
replace new [] = []
replace new (e ∷ es) = (if e.signo == new.signo then new else e) ∷ replace new es

unfoldable pub store : Local → RegisteredLocalSignal → Local
unfolding replace
store c e = record c { container = record c.container { signals = replace e c.signals } }

-- Whether the table is another signal's.
unfoldable pub has_domain : String → String → Bool
has_domain table_id id = not (is_empty table_id) && not (same_id table_id id)

-- The number and the table of the signal named by the table id.
unfoldable pub bind_domain : Local → RegisteredLocalSignal → RegisteredLocalSignal
unfolding metadata_of has_domain
bind_domain c e =
    let m = metadata_of c e in
    if has_domain m.table_id e.signal.id
    then elim (find_local_signal_id c.signals m.table_id) [
      | none ↦ e
      | some d ↦ record e {
        domain_signo = d.signo;
        domain_table = elim d.table [ none ↦ none | some t ↦ some (d.signo, d.table_made) ];
      }
    ]
    else e

unfoldable pub make_table : RegisteredLocalSignal → Metadata → RegisteredLocalSignal
make_table e m = record e {
  table = some (LinearTable.linear_table m.linear);
  table_made = e.table_made + 1;
}

-- The entry with its rule and its table.
unfoldable pub refresh_table : RegisteredLocalSignal → Metadata → RegisteredLocalSignal
unfolding make_table
refresh_table e m =
    let e' : RegisteredLocalSignal = record e {
      is_explicit = same_id m.rule Metadata.explicit_rule;
    } in
    if same_id m.rule Metadata.linear_rule
    then elim e.table [
      | some t ↦ record e' { table = some (LinearTable.update t m.linear) }
      | none ↦ make_table e' m
    ]
    else record e' { table = none }

unfoldable pub refresh_local_signal_bindings : Local → RegisteredLocalSignal → RegisteredLocalSignal
unfolding refresh_table bind_domain metadata_of
refresh_local_signal_bindings c e =
    bind_domain c
      (record (refresh_table e (metadata_of c e)) { domain_signo = 0; domain_table = none })

unfoldable pub add_local_signal : Local → LocalSignal → Local × List Outgoing
unfolding store bind_domain make_table metadata_of
add_local_signal c signal =
    let (container', e, added) = LocalContainer.add_local_signal c.container signal in
    let c' : Local = record c { container = container' } in
    let m = metadata_of c e in
    let e1 : RegisteredLocalSignal = record e {
      is_explicit = same_id m.rule Metadata.explicit_rule;
    } in
    let e2 = if same_id m.rule Metadata.linear_rule then make_table e1 m else e1 in
    if added
    then (
      store c' (bind_domain c' e2),
      if c.hello_sent then record { signo = 0; message = available (signal.id ∷ []) } ∷ [] else [],
    )
    else (c', [])

-- The number of subscriptions of an application's signal, where a holder is made or closed.
unfoldable pub hold : Local → ℕ → Local
hold c a =
    let s = c.signals_of a in
    record c {
      signals_of =
          put c.signals_of a (record s { subscribe_count = (s.subscribe_count + 1) % 2 ^ 32 });
    }

unfoldable pub release : Local → ℕ → Local
release c a =
    let s = c.signals_of a in
    record c {
      signals_of =
          put c.signals_of a
            (record s { subscribe_count = (s.subscribe_count + (2 ^ 32 - 1)) % 2 ^ 32 });
    }

-- The entry that is removed gives its holder up.
unfoldable pub remove_local_signal : Local → LocalSignal → Local × List Outgoing
unfolding release
remove_local_signal c signal =
    let (container', signo) = LocalContainer.remove_local_signal c.container signal in
    let c' : Local = record c { container = container' } in
    let released : Local = elim (LocalContainer.find_address signal.address c.signals) [
      | none ↦ c'
      | some e ↦ if e.connected then release c' e.signal.address else c'
    ] in
    if not (signo == 0)
    then (released, record { signo = 0; message = unavailable (signal.id ∷ []) } ∷ [])
    else (released, [])

-- The slot of an entry that is connected.
unfoldable pub on_local_signal_metadata_changed :
    Local → RegisteredLocalSignal → Local × List Outgoing
unfolding refresh_local_signal_bindings store metadata_of
on_local_signal_metadata_changed c e =
    let e' : RegisteredLocalSignal = record (refresh_local_signal_bindings c e) {
      value_index = 0;
    } in
    let m = metadata_of c e in
    (store c e', record { signo = e.signo; message = signal_message m } ∷ [])

-- The announcement of `do_hello`: the ids of the signals, if there are any.
unfoldable pub announce : Local → Local × List Outgoing
announce c =
    let ids = map (λ (e : RegisteredLocalSignal). e.signal.id) c.signals in
    (
      record c { hello_sent = true },
      elim ids [ [] ↦ [] | id ∷ rest ↦ record { signo = 0; message = available (id ∷ rest) } ∷ [] ],
    )
