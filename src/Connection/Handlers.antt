-- ===== src/Connection/Handlers.antt =====
-- The handlers of the metadata that comes from the other end, src/connection.cpp. The ids of a list
-- are those of its items that are strings. What the application is told is returned in order.
pub mod Entries
pub mod Visibility
pub mod Closing
pub mod Turns
use Prim.Native.String.{String}
use ws_streaming.Prelude.{
  ℕ, List, [], ◌∷◌, ◌++◌, map, Bool, true, false, Option, none, some, ◌==◌, not, ◌&&◌, ◌||◌,
  if◌then◌else◌,
}
use ws_streaming.Signals.Ids.{same_id, is_empty}
use ws_streaming.Signals.Metadata
use ws_streaming.Signals.RemoteContainer
use ws_streaming.Signals.RemoteContainer.{Entry, find_id}
use ws_streaming.Signals.RemoteSignal
use ws_streaming.Signals.RemoteSignal.{RemoteSignal, remote_signal_impl}
use ws_streaming.Connection.Store.{put}
use ws_streaming.Connection.Receive.{Remote}

-- `on_available` and `on_unavailable` of the connection, by the signal's id, and the slots of a signal.
pub data Notice : Type 0 where
  available unavailable : String → Notice
  slot : ℕ → RemoteSignal.Event → Notice

unfoldable pub slots : ℕ → List RemoteSignal.Event → List Notice
slots address events = map (slot address) events

-- `signal.hidden = false` through the reference.
unfoldable pub unhide : String → List Entry → List Entry
unhide id [] = []
unhide id (e ∷ es) = (if same_id e.id id then record e { hidden = false } else e) ∷ unhide id es

-- A signal that is new to the container starts afresh.
unfoldable pub add_signal : Remote → String → Bool → Remote × Bool × Entry
add_signal r id hidden =
    let (container', added, e) = RemoteContainer.add_remote_signal r.container id hidden in
    (
      record {
        container = container';
        signals =
            if added
            then put r.signals e.address (remote_signal_impl Metadata.empty)
            else r.signals;
      },
      added,
      e,
    )

-- One id of `handle_available`.
unfoldable pub make_available : Remote → String → Remote × List Notice
unfolding add_signal unhide
make_available r id =
    let (r', added, e) = add_signal r id false in
    if not added && not e.hidden then (r', []) else (
      record r' { container = record r'.container { by_id = unhide id r'.container.by_id } },
      available id ∷ [],
    )

unfoldable pub handle_available : Remote → List String → Remote × List Notice
unfolding make_available
handle_available r [] = (r, [])
handle_available r (id ∷ ids) =
    let (r', notices) = make_available r id in
    let (r'', more) = handle_available r' ids in (r'', notices ++ more)

-- One id of `handle_unavailable`.
unfoldable pub make_unavailable : Remote → String → Remote × List Notice
unfolding slots
make_unavailable r id =
    let (container', removed) = RemoteContainer.remove_remote_signal r.container id in
    elim removed [
      | none ↦ (record r { container = container' }, [])
      | some e ↦
          let (s, events) = RemoteSignal.detach (r.signals e.address) in
          (
            record { container = container'; signals = put r.signals e.address s },
            slots e.address events ++ (if not e.hidden then unavailable id ∷ [] else []),
          )
    ]

unfoldable pub handle_unavailable : Remote → List String → Remote × List Notice
unfolding make_unavailable
handle_unavailable r [] = (r, [])
handle_unavailable r (id ∷ ids) =
    let (r', notices) = make_unavailable r id in
    let (r'', more) = handle_unavailable r' ids in (r'', notices ++ more)

-- The id is empty where the parameters have none.
unfoldable pub handle_subscribe : Remote → ℕ → String → Remote × List Notice
unfolding add_signal slots
handle_subscribe r signo id =
    let (r', added, e) = add_signal r id true in
    let numbered = RemoteSignal.set_signo (r'.signals e.address) signo in
    let (s, events) = RemoteSignal.handle_subscribe numbered in
    if is_empty id then (r, []) else (
      record {
        container = RemoteContainer.set_remote_signal_signo r'.container e.address signo;
        signals = put r'.signals e.address s;
      },
      slots e.address events,
    )

-- Whether an entry stands at the address, so that a pointer to it may be read.
unfoldable pub stands : ℕ → List Entry → Bool
stands address [] = false
stands address (e ∷ es) = e.address == address || stands address es

-- The signal behind the pointer.
unfoldable pub unsubscribe_at : Remote → ℕ → ℕ → Remote × List Notice
unfolding slots
unsubscribe_at r signo address =
    let (s, events) = RemoteSignal.handle_unsubscribe (r.signals address) in
    (
      record {
        container = RemoteContainer.forget_remote_signo r.container signo;
        signals = put r.signals address s;
      },
      slots address events,
    )

-- none where the pointer is to an entry that has been erased, which the code reads all the same.
unfoldable pub handle_unsubscribe : Remote → ℕ → Option (Remote × List Notice)
unfolding stands unsubscribe_at
handle_unsubscribe r signo = elim (RemoteContainer.find_remote_signal r.container signo) [
  | none ↦ some (record r { container = RemoteContainer.forget_remote_signo r.container signo }, [])
  | some address ↦
      if stands address r.container.by_id then some (unsubscribe_at r signo address) else none
]

-- The signals that go are detached first, and then withdrawn where they were shown.
unfoldable pub detach_all : (ℕ → RemoteSignal) → List Entry → (ℕ → RemoteSignal) × List Notice
detach_all signals [] = (signals, [])
detach_all signals (e ∷ es) =
    let (s, events) = RemoteSignal.detach (signals e.address) in
    let (signals', more) = detach_all (put signals e.address s) es in
    (signals', slots e.address events ++ more)

unfoldable pub on_peer_closed : Remote → Remote × List Notice
unfolding detach_all
on_peer_closed r =
    let (container', shown) = RemoteContainer.clear_remote_signals r.container in
    let (signals', notices) = detach_all r.signals r.container.by_id in
    (
      record { container = container'; signals = signals' },
      notices ++ map (λ (e : Entry). unavailable e.id) shown,
    )

-- `find_table`: the first signal whose table has the id.
unfoldable pub find_table : Remote → String → List Entry → Option ℕ
find_table r id [] = none
find_table r id (e ∷ es) =
    let rest = find_table r id es in
    elim (r.signals e.address).table [
      | none ↦ rest
      | some t ↦ if not (is_empty t.id) && same_id t.id id then some e.address else rest
    ]
