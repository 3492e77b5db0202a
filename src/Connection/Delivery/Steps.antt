-- ===== src/Connection/Delivery/Steps.antt =====
-- One publication, sent and received.
use ws_streaming.Prelude.{
  ℕ, ◌*◌, ◌<◌, ◌≡◌, ◌≢◌, refl, sym, ap, List, [], ◌∷◌, ◌++◌, append_assoc, true, false, Option,
  some, ◌==◌, ==_iff, if◌then◌else◌, length, arith, Bool-cases, inl, inr,
}
use ws_streaming.Signals.LinearTable
use ws_streaming.Signals.LinearTable.{LinearTable, word, add-anchored}
use ws_streaming.Signals.LocalContainer.{RegisteredLocalSignal}
use ws_streaming.Signals.RemoteContainer
use ws_streaming.Signals.RemoteSignal.Data.{Report}
use ws_streaming.Wire.Streaming.Payload.{LinearPayload, payload_bytes}
use ws_streaming.Connection.Store.{put, put-at, put-off}
use ws_streaming.Connection.Publish.{
  Packet, next_index, follow, on_local_signal_data_published, lock_local, store_local,
}
use ws_streaming.Connection.Receive.{Remote, on_peer_data_received, receive_all}
use ws_streaming.Connection.Delivery.Reports.{IsStreaming}
use ws_streaming.Connection.Delivery.Sync.{Ends, Layout}
use ws_streaming.Connection.Delivery.Arrival.{payload_arrives}

pub record Publication : Type 0 where
  pub number : ℕ
  pub domain_value : ℕ
  pub sample_count : ℕ
  pub bytes : List ℕ

-- The signal publishes, and the other end receives the packets.
unfoldable pub publish : Ends → Publication → Ends × List (ℕ × Report)
publish ends p =
    let e = ends.entries p.number in
    let (e', domain', packets) =
      on_local_signal_data_published e (lock_local ends.entries e.domain_table) p.domain_value
        p.sample_count p.bytes in
    let (remote', reports) = receive_all ends.remote packets in
    (
      record {
        entries = put (store_local ends.entries e.domain_table domain') p.number e';
        remote = remote';
      },
      reports,
    )

-- The reports that have samples; those of a domain signal have none.
unfoldable pub with_samples : List (ℕ × Report) → List (ℕ × Report)
with_samples [] = []
with_samples ((a, r) ∷ rs) =
    let rest = with_samples rs in if r.sample_count == 0 then rest else (a, r) ∷ rest

pub with_samples-append :
    (xs ys : List (ℕ × Report)) → with_samples (xs ++ ys) ≡ with_samples xs ++ with_samples ys
unfolding with_samples
with_samples-append [] ys = refl
with_samples-append ((a, r) ∷ xs) ys = elim (Bool-cases (r.sample_count == 0)) [
  | inl h ↦ rw (h, with_samples-append xs ys)
  | inr h ↦ rw (h, with_samples-append xs ys)
]

pub receive_all-append :
    (r : Remote) (ps : List Packet) (q : Packet)
    → receive_all r (ps ++ (q ∷ [])) ≡ (
        let (r', xs) = receive_all r ps in
        let (r'', ys) = on_peer_data_received r' q.signo q.bytes in (r'', xs ++ (ys ++ [])))
unfolding receive_all
receive_all-append r [] q = refl
receive_all-append r (p ∷ ps) q =
    let (r', xs) = on_peer_data_received r p.signo p.bytes in
    rw (receive_all-append r' ps q, append_assoc xs)

-- The whole samples of one of the data signals; an implicit one is published one sample at a time.
pub record IsWhole (l : Layout) (p : Publication) : Type 0 where
  pub carried : l.IsData p.number
  pub small : p.domain_value < word
  pub some_samples : 0 < p.sample_count
  pub sized : length p.bytes ≡ p.sample_count * l.size p.number
  pub single : l.explicit p.number ≡ false → p.sample_count ≡ 1

-- The receiving end's tables after it has been told of a deviation.
pub record Told (r r' : Remote) (m : ℕ) (t : LinearTable) : Type 0 where
  pub at : r'.signals m ≡ record (r.signals m) { table = some t }
  pub other : (k : ℕ) → k ≢ m → r'.signals k ≡ r.signals k
  pub container : r'.container ≡ r.container

next_index-small :
    (e : RegisteredLocalSignal) (t : LinearTable)
    → e.value_index < word
    → t.driven_index < word
    → next_index e t < word
unfolding next_index
next_index-small e t h k = ground arith

follow-same :
    (e : RegisteredLocalSignal) (t : LinearTable) (v : ℕ)
    → (v == LinearTable.value_at t (next_index e t)) ≡ true
    → follow e t v ≡ (t, [])
unfolding follow
follow-same e t v h = rw h

follow-deviates :
    (e : RegisteredLocalSignal) (t : LinearTable) (v : ℕ)
    → (v == LinearTable.value_at t (next_index e t)) ≡ false
    → let index = next_index e t in
      let payload : LinearPayload = record { sample_index = index; value = v } in
      follow e t v ≡ (
        LinearTable.set t index v,
        record { signo = e.domain_signo; bytes = payload_bytes payload } ∷ [],
      )
unfolding follow
follow-deviates e t v h = rw h

value_at-set :
    (t : LinearTable) (i v : ℕ) → v < word → LinearTable.value_at (LinearTable.set t i v) i ≡ v
unfolding LinearTable.value_at LinearTable.set
value_at-set t i v small = omega (arith, add-anchored v t.delta i)

next_index-set :
    (e : RegisteredLocalSignal) (t : LinearTable) (v : ℕ)
    → next_index e (LinearTable.set t (next_index e t) v) ≡ next_index e t
unfolding next_index LinearTable.set
next_index-set e t v = ground arith

-- The table that `follow` leaves gives the domain value at the next index.
pub follow-value :
    (e : RegisteredLocalSignal) (t : LinearTable) (v : ℕ)
    → v < word
    → e.value_index < word
    → t.driven_index < word
    → let t' = (follow e t v).0 in
      (LinearTable.value_at t' (next_index e t') ≡ v)
      × (next_index e t' ≡ next_index e t)
      × (t'.driven_index < word)
unfolding LinearTable.set
follow-value e t v small i d =
    let index = next_index e t in
    elim (Bool-cases (v == LinearTable.value_at t index)) [
      | inl h ↦
          rw (follow-same e t v h) (sym ((==_iff v (LinearTable.value_at t index)).0 h), refl, d)
      | inr h ↦
          rw (follow-deviates e t v h, next_index-set e t v)
            (value_at-set t index v small, refl, next_index-small e t i d)
    ]

-- What one packet tells of a deviation.
set-told :
    (r : Remote) (signo address index v : ℕ) (t : LinearTable)
    → v < word
    → index < word
    → RemoteContainer.find_remote_signal r.container signo ≡ some address
    → IsStreaming (r.signals address)
    → (r.signals address).table ≡ some t
    → let payload : LinearPayload = record { sample_index = index; value = v } in
      let packet : Packet = record { signo = signo; bytes = payload_bytes payload } in
      let (r', reports) = receive_all r (packet ∷ []) in
      Told r r' address (LinearTable.set t index v) × (with_samples reports ≡ [])
unfolding receive_all with_samples
set-told r signo address index v t small i link s h =
    let payload : LinearPayload = record { sample_index = index; value = v } in
    rw (payload_arrives r signo address t payload link s h i small) (
      record {
        at = put-at r.signals address _;
        other = λ k x. put-off r.signals address k _ x;
        container = refl;
      },
      refl,
    )

pub follow-told :
    (r : Remote) (e : RegisteredLocalSignal) (t : LinearTable) (v address : ℕ)
    → v < word
    → e.value_index < word
    → t.driven_index < word
    → RemoteContainer.find_remote_signal r.container e.domain_signo ≡ some address
    → IsStreaming (r.signals address)
    → (r.signals address).table ≡ some t
    → let (t', packets) = follow e t v in
      let (r', reports) = receive_all r packets in
      Told r r' address t' × (with_samples reports ≡ [])
unfolding receive_all with_samples
follow-told r e t v address small i d link s h =
    let index = next_index e t in
    elim (Bool-cases (v == LinearTable.value_at t index)) [
      | inl x ↦ rw (follow-same e t v x) (
        record {
          at = ap (λ (o : Option LinearTable). record (r.signals address) { table = o }) h;
          other = λ k y. refl;
          container = refl;
        },
        refl,
      )
      | inr x ↦
          rw (follow-deviates e t v x)
            (set-told r e.domain_signo address index v t small (next_index-small e t i d) link s h)
    ]
