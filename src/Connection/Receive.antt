-- ===== src/Connection/Receive.antt =====
-- The remote side of a connection, src/connection.cpp: data packets. The signals are kept by the
-- addresses to which the entries of the container point.
use ws_streaming.Prelude.{ℕ, List, [], ◌∷◌, ◌++◌, map, Option, none, some, ◌==◌, if◌then◌else◌}
use ws_streaming.Signals.LinearTable.{LinearTable}
use ws_streaming.Signals.RemoteContainer
use ws_streaming.Signals.RemoteSignal.{RemoteSignal}
use ws_streaming.Signals.RemoteSignal.Data.{Report, handle_data}
use ws_streaming.Connection.Store.{put}
use ws_streaming.Connection.Publish.{Packet}

pub record Remote : Type 0 where
  pub container : RemoteContainer.Container
  pub signals : ℕ → RemoteSignal

-- `lock` of a weak pointer to a table.
unfoldable pub lock_remote : (ℕ → RemoteSignal) → Option (ℕ × ℕ) → Option LinearTable
lock_remote signals none = none
lock_remote signals (some (owner, made)) =
    if (signals owner).table_made == made then (signals owner).table else none

-- The change of a table through a pointer that has been locked.
unfoldable pub store_remote :
    (ℕ → RemoteSignal) → Option (ℕ × ℕ) → Option LinearTable → ℕ → RemoteSignal
store_remote signals pointer none = signals
store_remote signals none (some t) = signals
store_remote signals (some (owner, made)) (some t) =
    put signals owner (record (signals owner) { table = some t })

-- The data that a signal is given; a report is the signal's address with what it calls its slots with.
unfoldable pub give_data : Remote → ℕ → List ℕ → Remote × List (ℕ × Report)
give_data r address bytes =
    let s = r.signals address in
    let (s', domain', reports) = handle_data s (lock_remote r.signals s.domain_table) bytes in
    (
      record r { signals = put (store_remote r.signals s.domain_table domain') address s' },
      map (λ (x : Report). (address, x)) reports,
    )

unfoldable pub on_peer_data_received : Remote → ℕ → List ℕ → Remote × List (ℕ × Report)
unfolding give_data
on_peer_data_received r signo bytes = elim (RemoteContainer.find_remote_signal r.container signo) [
  | none ↦ (r, [])
  | some address ↦ give_data r address bytes
]

-- The packets that arrive, in order.
unfoldable pub receive_all : Remote → List Packet → Remote × List (ℕ × Report)
unfolding on_peer_data_received
receive_all r [] = (r, [])
receive_all r (p ∷ ps) =
    let (r', reports) = on_peer_data_received r p.signo p.bytes in
    let (r'', more) = receive_all r' ps in (r'', reports ++ more)
