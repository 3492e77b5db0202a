-- ===== src/Connection/Delivery/Arrival.antt =====
-- What the packets of a publication do at the receiving end.
use ws_streaming.Prelude.{
  ℕ, ◌*◌, ◌^◌, ◌<◌, ◌≡◌, refl, ap, ◌∙◌, List, [], ◌∷◌, true, false, Option, none, some, ◌==◌,
  length, arith,
}
use ws_streaming.Signals.LinearTable
use ws_streaming.Signals.LinearTable.{LinearTable}
use ws_streaming.Signals.RemoteContainer
use ws_streaming.Signals.RemoteSignal.{RemoteSignal}
use ws_streaming.Signals.RemoteSignal.Data.{Report, handle_data}
use ws_streaming.Wire.Streaming.Payload.{LinearPayload, payload_bytes}
use ws_streaming.Connection.Store.{put}
use ws_streaming.Connection.Receive.{
  Remote, lock_remote, store_remote, give_data, on_peer_data_received,
}
use ws_streaming.Connection.Delivery.Reports.{
  IsStreaming, explicit-samples, implicit-sample, payload-reported,
}

lock_remote-alive :
    (signals : ℕ → RemoteSignal) (pointer : Option (ℕ × ℕ)) (owner : ℕ)
    → pointer ≡ some (owner, (signals owner).table_made)
    → lock_remote signals pointer ≡ (signals owner).table
unfolding lock_remote
lock_remote-alive signals pointer owner h =
    let same : ((signals owner).table_made == (signals owner).table_made) ≡ true = ground arith in
    rw (h, same)

store_remote-some :
    (signals : ℕ → RemoteSignal) (pointer : Option (ℕ × ℕ)) (owner made : ℕ) (t : LinearTable)
    → pointer ≡ some (owner, made)
    → store_remote signals pointer (some t)
      ≡ put signals owner (record (signals owner) { table = some t })
unfolding store_remote
store_remote-some signals pointer owner made t h = rw h

-- A packet whose number is known is given to the signal.
received :
    (r : Remote) (n address : ℕ) (bytes : List ℕ)
    → RemoteContainer.find_remote_signal r.container n ≡ some address
    → on_peer_data_received r n bytes ≡ give_data r address bytes
unfolding on_peer_data_received
received r n address bytes h =
    ap (λ (o : Option ℕ). elim o [ none ↦ (r, []) | some x ↦ give_data r x bytes ]) h

give_data-result :
    (r : Remote) (address : ℕ) (bytes : List ℕ) (domain domain' : Option LinearTable)
    (s' : RemoteSignal) (report : Report)
    → lock_remote r.signals (r.signals address).domain_table ≡ domain
    → handle_data (r.signals address) domain bytes ≡ (s', domain', report ∷ [])
    → give_data r address bytes ≡ (
      record r {
        signals = put (store_remote r.signals (r.signals address).domain_table domain') address s';
      },
      (address, report) ∷ [],
    )
unfolding give_data
give_data-result r address bytes domain domain' s' report h k = rw (h, k)

pub payload_arrives :
    (r : Remote) (m address : ℕ) (t : LinearTable) (p : LinearPayload)
    → RemoteContainer.find_remote_signal r.container m ≡ some address
    → IsStreaming (r.signals address)
    → (r.signals address).table ≡ some t
    → p.sample_index < 2 ^ 64
    → p.value < 2 ^ 64
    → let s' : RemoteSignal = record (r.signals address) {
      table = some (LinearTable.set t p.sample_index p.value);
    } in
      on_peer_data_received r m (payload_bytes p) ≡ (
        record r { signals = put r.signals address s' },
        (address, record { domain_value = 0; sample_count = 0; bytes = payload_bytes p }) ∷ [],
      )
unfolding store_remote
payload_arrives r m address t p link v h i k =
    let s = r.signals address in
    let domain = lock_remote r.signals s.domain_table in
    received r m address (payload_bytes p) link
    ∙ give_data-result r address (payload_bytes p) domain none
        (record s { table = some (LinearTable.set t p.sample_index p.value) })
        (record { domain_value = 0; sample_count = 0; bytes = payload_bytes p }) refl
        (payload-reported s domain t p v h i k)

pub explicit_arrives :
    (r : Remote) (n address owner count : ℕ) (t : LinearTable) (bytes : List ℕ)
    → RemoteContainer.find_remote_signal r.container n ≡ some address
    → let s = r.signals address in
      IsStreaming s
      → s.table ≡ none
      → s.is_explicit ≡ true
      → s.domain_table ≡ some (owner, (r.signals owner).table_made)
      → (r.signals owner).table ≡ some t
      → 0 < s.sample_size
      → length bytes ≡ count * s.sample_size
      → let next = LinearTable.add s.value_index count in
        let driven : RemoteSignal = record (r.signals owner) {
          table = some (LinearTable.drive_to t next);
        } in
        on_peer_data_received r n bytes ≡ (
          record r {
            signals = put (put r.signals owner driven) address (record s { value_index = next });
          },
          (
            address,
            record {
              domain_value = LinearTable.value_at t s.value_index;
              sample_count = count;
              bytes = bytes;
            },
          )
              ∷ [],
        )
explicit_arrives r n address owner count t bytes link v h x pointer table pos size =
    let s = r.signals address in
    let next = LinearTable.add s.value_index count in
    let s' : RemoteSignal = record s { value_index = next } in
    let t' = LinearTable.drive_to t next in
    let report : Report = record {
      domain_value = LinearTable.value_at t s.value_index;
      sample_count = count;
      bytes = bytes;
    } in
    let made = (r.signals owner).table_made in
    received r n address bytes link
    ∙ give_data-result r address bytes (some t) (some t') s' report
        (lock_remote-alive r.signals s.domain_table owner pointer ∙ table)
        (explicit-samples s t count bytes v h x pos size)
    ∙ ap
        (λ (f : ℕ → RemoteSignal).
          (record r { signals = put f address s' }, (address, report) ∷ []))
        (store_remote-some r.signals s.domain_table owner made t' pointer)

pub implicit_arrives :
    (r : Remote) (n address owner : ℕ) (t : LinearTable) (bytes : List ℕ)
    → RemoteContainer.find_remote_signal r.container n ≡ some address
    → let s = r.signals address in
      IsStreaming s
      → s.table ≡ none
      → s.is_explicit ≡ false
      → s.domain_table ≡ some (owner, (r.signals owner).table_made)
      → (r.signals owner).table ≡ some t
      → length bytes ≡ s.sample_size
      → on_peer_data_received r n bytes ≡ (
        record r { signals = put r.signals address s },
        (
          address,
          record { domain_value = LinearTable.driven_value t; sample_count = 1; bytes = bytes },
        )
            ∷ [],
      )
unfolding store_remote
implicit_arrives r n address owner t bytes link v h x pointer table size =
    let s = r.signals address in
    received r n address bytes link
    ∙ give_data-result r address bytes (some t) none s
        (record { domain_value = LinearTable.driven_value t; sample_count = 1; bytes = bytes })
        (lock_remote-alive r.signals s.domain_table owner pointer ∙ table)
        (implicit-sample s t bytes v h x size)
