-- ===== src/Connection/Delivery/Reports.antt =====
-- What a remote signal reports of the data that its other end publishes.
use native.Mathlib.Nat.{mul-div_cancel}
use ws_streaming.Prelude.{
  ℕ, ◌*◌, ◌/◌, ◌^◌, ◌<◌, ◌≡◌, refl, ap, ◌∙◌, List, [], ◌∷◌, true, false, Option, none, some, ◌==◌,
  leb, length, take_all, arith,
}
use ws_streaming.Signals.LinearTable
use ws_streaming.Signals.LinearTable.{LinearTable}
use ws_streaming.Signals.RemoteSignal.{RemoteSignal}
use ws_streaming.Signals.RemoteSignal.Data.{
  Report, handle_data, handle_linear, handle_explicit, handle_implicit,
}
use ws_streaming.Wire.Streaming.Payload.{LinearPayload, payload_bytes, read-payload_bytes}

-- The signal is subscribed and is not one of the TCP protocol.
pub record IsStreaming (s : RemoteSignal) : Type 0 where
  pub subscribed : s.is_subscribed ≡ true
  pub untimed : s.tcp_delta ≡ 0

handle_linear-payload :
    (s : RemoteSignal) (t : LinearTable) (p : LinearPayload)
    → p.sample_index < 2 ^ 64
    → p.value < 2 ^ 64
    → handle_linear s t (payload_bytes p) ≡ (
      record s { table = some (LinearTable.update_payload t p.sample_index p.value) },
      record { domain_value = 0; sample_count = 0; bytes = payload_bytes p },
    )
unfolding handle_linear
handle_linear-payload s t p i v =
    let (read, size) = read-payload_bytes p i v in
    let whole : leb 16 (length (payload_bytes p)) ≡ true = rw size refl in rw (whole, read) refl

handle_data-linear :
    (s : RemoteSignal) (domain : Option LinearTable) (t : LinearTable) (bytes : List ℕ)
    → IsStreaming s
    → s.table ≡ some t
    → handle_data s domain bytes
      ≡ (let (s', report) = handle_linear s t bytes in (s', none, report ∷ []))
unfolding handle_data
handle_data-linear s domain t bytes v h = simp (v.subscribed, v.untimed, h)

handle_data-explicit :
    (s : RemoteSignal) (domain : Option LinearTable) (bytes : List ℕ)
    → IsStreaming s
    → s.table ≡ none
    → s.is_explicit ≡ true
    → handle_data s domain bytes
      ≡ (let (s', domain', report) = handle_explicit s domain bytes in (s', domain', report ∷ []))
unfolding handle_data
handle_data-explicit s domain bytes v h x = simp (v.subscribed, v.untimed, h, x)

handle_data-implicit :
    (s : RemoteSignal) (domain : Option LinearTable) (bytes : List ℕ)
    → IsStreaming s
    → s.table ≡ none
    → s.is_explicit ≡ false
    → handle_data s domain bytes ≡ (s, none, handle_implicit s domain bytes ∷ [])
unfolding handle_data
handle_data-implicit s domain bytes v h x = simp (v.subscribed, v.untimed, h, x)

-- The report of whole samples, and what is left of the signal and of its domain.
pub explicit-samples :
    (s : RemoteSignal) (t : LinearTable) (count : ℕ) (bytes : List ℕ)
    → IsStreaming s
    → s.table ≡ none
    → s.is_explicit ≡ true
    → 0 < s.sample_size
    → length bytes ≡ count * s.sample_size
    → let next = LinearTable.add s.value_index count in
      handle_data s (some t) bytes ≡ (
        record s { value_index = next },
        some (LinearTable.drive_to t next),
        record {
          domain_value = LinearTable.value_at t s.value_index;
          sample_count = count;
          bytes = bytes;
        }
            ∷ [],
      )
unfolding handle_explicit
explicit-samples s t count bytes v h x pos size =
    let some_size : (s.sample_size == 0) ≡ false = ground arith in
    let counted : length bytes / s.sample_size ≡ count =
      ap (λ (n : ℕ). n / s.sample_size) size ∙ mul-div_cancel count pos in
    rw (handle_data-explicit s (some t) bytes v h x) (simp (some_size, counted))

pub implicit-sample :
    (s : RemoteSignal) (t : LinearTable) (bytes : List ℕ)
    → IsStreaming s
    → s.table ≡ none
    → s.is_explicit ≡ false
    → length bytes ≡ s.sample_size
    → handle_data s (some t) bytes ≡ (
      s,
      none,
      record { domain_value = LinearTable.driven_value t; sample_count = 1; bytes = bytes } ∷ [],
    )
unfolding handle_implicit
implicit-sample s t bytes v h x size =
    let whole : leb s.sample_size (length bytes) ≡ true = ground (arith, size) in
    rw (handle_data-implicit s (some t) bytes v h x)
      (rw (whole, take_all s.sample_size bytes (omega arith)))

pub payload-reported :
    (s : RemoteSignal) (domain : Option LinearTable) (t : LinearTable) (p : LinearPayload)
    → IsStreaming s
    → s.table ≡ some t
    → p.sample_index < 2 ^ 64
    → p.value < 2 ^ 64
    → handle_data s domain (payload_bytes p) ≡ (
      record s { table = some (LinearTable.set t p.sample_index p.value) },
      none,
      record { domain_value = 0; sample_count = 0; bytes = payload_bytes p } ∷ [],
    )
unfolding LinearTable.set LinearTable.update_payload
payload-reported s domain t p v h i k =
    handle_data-linear s domain t (payload_bytes p) v h
    ∙ ap (λ (x : RemoteSignal × Report). (x.0, none, x.1 ∷ [])) (handle_linear-payload s t p i k)
