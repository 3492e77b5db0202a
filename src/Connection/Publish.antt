-- ===== src/Connection/Publish.antt =====
-- `connection::on_local_signal_data_published` of src/connection.cpp: the packets that published data
-- becomes. The table of the domain signal is an argument, `none` where the weak pointer is empty or
-- its table is gone, and is returned with its changes.
use ws_streaming.Prelude.{ℕ, List, [], ◌∷◌, ◌++◌, Option, none, some, ◌==◌, not, if◌then◌else◌}
use ws_streaming.Signals.LinearTable
use ws_streaming.Signals.LinearTable.{LinearTable}
use ws_streaming.Signals.LocalContainer.{RegisteredLocalSignal}
use ws_streaming.Connection.Store.{put}
use ws_streaming.Wire.Streaming.Payload.{LinearPayload, payload_bytes}

-- What `send_data` is called with.
pub record Packet : Type 0 where
  pub signo : ℕ
  pub bytes : List ℕ

unfoldable pub next_index : RegisteredLocalSignal → LinearTable → ℕ
next_index e t = if e.is_explicit then e.value_index else t.driven_index

-- The table with the domain value in place, and the packet that tells the other end where it deviates.
unfoldable pub follow : RegisteredLocalSignal → LinearTable → ℕ → LinearTable × List Packet
unfolding next_index
follow e t domain_value =
    let index = next_index e t in
    let payload : LinearPayload = record { sample_index = index; value = domain_value } in
    if not (domain_value == LinearTable.value_at t index)
    then (
      LinearTable.set t index domain_value,
      record { signo = e.domain_signo; bytes = payload_bytes payload } ∷ [],
    )
    else (t, [])

unfoldable pub on_local_signal_data_published :
    RegisteredLocalSignal
    → Option LinearTable
    → ℕ
    → ℕ
    → List ℕ
    → RegisteredLocalSignal × Option LinearTable × List Packet
unfolding follow
on_local_signal_data_published e domain domain_value sample_count bytes =
    let packet : Packet = record { signo = e.signo; bytes = bytes } in
    let e' : RegisteredLocalSignal = record e {
      value_index = LinearTable.add e.value_index sample_count;
    } in
    elim domain [
      | none ↦ (e', none, packet ∷ [])
      | some t ↦
          let (t', packets) = follow e t domain_value in
          (
            e',
            some (if e.is_explicit then LinearTable.drive_to t' e'.value_index else t'),
            packets ++ (packet ∷ []),
          )
    ]

-- `lock` of the weak pointer to a table, in the signals by their numbers.
unfoldable pub lock_local : (ℕ → RegisteredLocalSignal) → Option (ℕ × ℕ) → Option LinearTable
lock_local entries none = none
lock_local entries (some (owner, made)) =
    if (entries owner).table_made == made then (entries owner).table else none

-- The change of a table through a pointer that has been locked.
unfoldable pub store_local :
    (ℕ → RegisteredLocalSignal) → Option (ℕ × ℕ) → Option LinearTable → ℕ → RegisteredLocalSignal
store_local entries pointer none = entries
store_local entries none (some t) = entries
store_local entries (some (owner, made)) (some t) =
    put entries owner (record (entries owner) { table = some t })
