-- ===== src/Signals/RemoteSignal/Data.antt =====
-- The metadata and the data of a remote signal, src/detail/remote_signal_impl.cpp. The table of the
-- domain signal is an argument, `none` where the weak pointer is empty or its table is gone, and it
-- is returned where it is driven. An `int64_t` is its representation modulo 2 ^ 64.
use Prim.Native.String.{String}
use ws_streaming.Prelude.{
  ℕ, ◌+◌, ◌*◌, ◌/◌, ◌%◌, ◌^◌, ◌≡◌, List, [], ◌∷◌, Option, none, some, ◌==◌, leb, not, if◌then◌else◌,
  length, take, arith, ◌&&◌, ◌<◌,
}
use ws_streaming.Signals.Ids.{same_id, is_empty}
use ws_streaming.Signals.LinearTable
use ws_streaming.Signals.LinearTable.{LinearTable, value_or}
use ws_streaming.Signals.Metadata
use ws_streaming.Signals.Metadata.{Metadata, SignalRate, tcp_signal_rate_ticks}
use ws_streaming.Wire.Streaming.Payload.{read_payload}
use ws_streaming.Signals.RemoteSignal.{RemoteSignal}

-- What `on_data_received` is called with.
pub record Report : Type 0 where
  pub domain_value : ℕ
  pub sample_count : ℕ
  pub bytes : List ℕ

-- `size / _sample_size`, where the sample size is known.
count_samples : RemoteSignal → ℕ → ℕ → ℕ
count_samples s size otherwise = if s.sample_size == 0 then otherwise else size / s.sample_size

-- The four ways to read data: as a TCP signal, as the domain signal's own, explicit and implicit.
unfoldable pub handle_tcp : RemoteSignal → List ℕ → RemoteSignal × Report
unfolding count_samples
handle_tcp s bytes =
    let sample_count = count_samples s (length bytes) 0 in
    (
      record s { tcp_time = (s.tcp_time + s.tcp_delta * sample_count) % 2 ^ 64 },
      record { domain_value = s.tcp_time; sample_count = sample_count; bytes = bytes },
    )

unfoldable pub handle_linear : RemoteSignal → LinearTable → List ℕ → RemoteSignal × Report
handle_linear s table bytes =
    let p = read_payload bytes in
    (
      (if leb 16 (length bytes)
          then record s { table = some (LinearTable.update_payload table p.sample_index p.value) }
          else s),
      record { domain_value = 0; sample_count = 0; bytes = bytes },
    )

unfoldable pub handle_explicit :
    RemoteSignal → Option LinearTable → List ℕ → RemoteSignal × Option LinearTable × Report
unfolding count_samples
handle_explicit s domain bytes =
    let binary = if same_id s.metadata.data_type Metadata.binary_t then 1 else 0 in
    let sample_count = count_samples s (length bytes) binary in
    let next = LinearTable.add s.value_index sample_count in
    let s' : RemoteSignal = record s { value_index = next } in
    elim domain [
      | none ↦ (s', none, record { domain_value = 0; sample_count = sample_count; bytes = bytes })
      | some t ↦ (
        s',
        some (LinearTable.drive_to t next),
        record {
          domain_value = LinearTable.value_at t s.value_index;
          sample_count = sample_count;
          bytes = bytes;
        },
      )
    ]

unfoldable pub handle_implicit : RemoteSignal → Option LinearTable → List ℕ → Report
handle_implicit s domain bytes =
    let whole = leb s.sample_size (length bytes) in
    record {
      domain_value = elim domain [ none ↦ 0 | some t ↦ LinearTable.driven_value t ];
      sample_count = if whole then 1 else 0;
      bytes = if whole then take s.sample_size bytes else bytes;
    }

-- `handle_data(const void *, std::size_t)`
unfoldable pub handle_data :
    RemoteSignal → Option LinearTable → List ℕ → RemoteSignal × Option LinearTable × List Report
unfolding handle_tcp handle_linear handle_explicit handle_implicit
handle_data s domain bytes =
    let (tcp, tcp_report) = handle_tcp s bytes in
    let (explicit, domain', explicit_report) = handle_explicit s domain bytes in
    if not s.is_subscribed
    then (s, none, [])
    else if not (s.tcp_delta == 0)
    then (tcp, none, tcp_report ∷ [])
    else elim s.table [
      | some t ↦ let (s', report) = handle_linear s t bytes in (s', none, report ∷ [])
      | none ↦
          if s.is_explicit
          then (explicit, domain', explicit_report ∷ [])
          else (s, none, handle_implicit s domain bytes ∷ [])
    ]

-- The table after new metadata: made, updated or dropped.
update_table : RemoteSignal → Metadata → RemoteSignal
update_table s m =
    if same_id m.rule Metadata.linear_rule
    then elim s.table [
      | some t ↦ record s { table = some (LinearTable.update t m.linear) }
      | none ↦ record s {
        table = some (LinearTable.linear_table m.linear);
        table_made = s.table_made + 1;
      }
    ]
    else record s { table = none }

-- `sought` is what `on_table_sought` returns for the table id: the address of another signal with
-- the count of its table, `none` where nothing is found or the signal itself is.
unfoldable pub handle_signal : RemoteSignal → String → Metadata → Option (ℕ × ℕ) → RemoteSignal
unfolding update_table
handle_signal s id m sought =
    record (update_table (record s { metadata = m; sample_size = m.sample_size }) m) {
      is_explicit = same_id m.rule Metadata.explicit_rule;
      value_index = value_or m.value_index s.value_index;
      domain_table =
          if not (is_empty m.table_id) && not (same_id m.table_id id) then sought else none;
    }

-- `m` is the metadata with the rate in place.
unfoldable pub handle_signal_rate : RemoteSignal → Metadata → SignalRate → Option RemoteSignal
handle_signal_rate s m rate = elim (tcp_signal_rate_ticks rate 1 1000000000) [
  | none ↦ none
  | some ticks ↦ some (record s { metadata = m; tcp_delta = ticks })
]

-- `handle_data(const nlohmann::json&)`; `m` is the metadata with the type and byte order in place.
unfoldable pub handle_data_type : RemoteSignal → Metadata → RemoteSignal
handle_data_type s m = record s { metadata = m; sample_size = m.sample_size }

-- The time stamp in nanoseconds; the source's sum of fractions is written over one denominator.
unfoldable pub handle_time : RemoteSignal → ℕ → ℕ → RemoteSignal
handle_time s seconds fraction =
    let y = 2 ^ 31 + fraction + (seconds + 946684800) * 2 ^ 32 in
    record s { tcp_time = y * 1000000000 / 2 ^ 32 % 2 ^ 64 }

-- A time stamp of whole seconds becomes a time half a second after it.
pub handle_time_late :
    (s : RemoteSignal) (seconds : ℕ)
    → seconds < 2 ^ 32
    → (handle_time s seconds 0).tcp_time ≡ (seconds + 946684800) * 1000000000 + 500000000
unfolding handle_time
handle_time_late s seconds h = omega arith
