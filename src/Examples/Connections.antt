-- ===== src/Examples/Connections.antt =====
-- Concrete runs of a connection.
use Prim.Native.String.{String}
use ws_streaming.Prelude.{
  ℕ, ◌+◌, ◌*◌, ◌≡◌, ◌⊎◌, inl, inr, refl, sym, ap, subst, List, [], ◌∷◌, map, true, false, Option,
  none, some, ◌==◌, if◌then◌else◌, length, arith,
}
use ws_streaming.Signals.LinearTable.{LinearTable}
use ws_streaming.Signals.LocalContainer.{RegisteredLocalSignal, registered_local_signal}
use ws_streaming.Signals.RemoteContainer
use ws_streaming.Signals.RemoteSignal.{RemoteSignal, remote_signal_impl}
use ws_streaming.Signals.RemoteSignal.Data
use ws_streaming.Signals.RemoteSignal.Data.{Report}
use ws_streaming.Wire.Streaming.Payload.{
  LinearPayload, payload_bytes, read_payload, read-payload_bytes,
}
use ws_streaming.Examples.Libraries.{no_metadata}
use ws_streaming.Connection.Delivery
use ws_streaming.Connection.Delivery.Sync.{Ends, Layout, Bound, Pointed, Current, InSync}
use ws_streaming.Connection.Delivery.Steps.{Publication, with_samples}

one_not_data : (n : ℕ) → (n ≡ 2) ⊎ (n ≡ 3) → ¬ ((◌≡◌ {A = ℕ} 1 2) ⊎ (◌≡◌ {A = ℕ} 1 3))
one_not_data n h (inl k) = cc
one_not_data n h (inr k) = cc

-- Signal 1 is the domain of the signals 2 and 3, which have samples of 2 bytes; 3 is implicit.
abbrev layout : Layout
layout = record {
  IsLive = λ n. (n ≡ 1) ⊎ ((n ≡ 2) ⊎ (n ≡ 3));
  IsData = λ n. (n ≡ 2) ⊎ (n ≡ 3);
  domain = λ _. 1;
  address = λ n. n;
  size = λ _. 2;
  explicit = λ n. n == 2;
  live = λ n h. inr h;
  domain_live = λ n h. inl refl;
  domain_other = one_not_data;
  distinct = λ n m h k e. e;
}

abbrev table : LinearTable
table = record { id = "time"; index = 0; value = 100; delta = 10; driven_index = 0 }

abbrev time_entry : RegisteredLocalSignal
time_entry = record (registered_local_signal (record { address = 0; id = "time" }) 1) {
  table = some table;
  table_made = 1;
}

abbrev data_entry : RegisteredLocalSignal
data_entry = record (registered_local_signal (record { address = 1; id = "value" }) 2) {
  is_explicit = true;
  domain_signo = 1;
  domain_table = some (1, 1);
}

abbrev implicit_entry : RegisteredLocalSignal
implicit_entry = record (registered_local_signal (record { address = 2; id = "level" }) 3) {
  is_explicit = false;
  domain_signo = 1;
  domain_table = some (1, 1);
}

abbrev time_signal : RemoteSignal
time_signal = record (remote_signal_impl no_metadata) {
  is_subscribed = true;
  signo = 1;
  table = some table;
  table_made = 1;
}

abbrev data_signal : RemoteSignal
data_signal = record (remote_signal_impl no_metadata) {
  is_subscribed = true;
  signo = 2;
  is_explicit = true;
  sample_size = 2;
  domain_table = some (1, 1);
}

abbrev implicit_signal : RemoteSignal
implicit_signal = record (remote_signal_impl no_metadata) {
  is_subscribed = true;
  signo = 3;
  is_explicit = false;
  sample_size = 2;
  domain_table = some (1, 1);
}

abbrev shown : String → ℕ → RemoteContainer.Entry
shown id n = record { id = id; hidden = false; signo = n; address = n }

abbrev ends : Ends
ends = record {
  entries = λ n. if n == 1 then time_entry else if n == 2 then data_entry else implicit_entry;
  remote = record {
    container = record {
      by_id = shown "time" 1 ∷ shown "value" 2 ∷ shown "level" 3 ∷ [];
      by_signo = (1, 1) ∷ (2, 2) ∷ (3, 3) ∷ [];
      next_address = 4;
    };
    signals = λ n. if n == 1 then time_signal else if n == 2 then data_signal else implicit_signal;
  };
}

time-Bound : Bound layout ends 1
unfolding RemoteContainer.find_remote_signal
time-Bound = record {
  numbered = refl;
  linked = refl;
  streaming = record { subscribed = refl; untimed = refl };
  same_rule = refl;
}

data-Bound : Bound layout ends 2
unfolding RemoteContainer.find_remote_signal
data-Bound = record {
  numbered = refl;
  linked = refl;
  streaming = record { subscribed = refl; untimed = refl };
  same_rule = refl;
}

implicit-Bound : Bound layout ends 3
unfolding RemoteContainer.find_remote_signal
implicit-Bound = record {
  numbered = refl;
  linked = refl;
  streaming = record { subscribed = refl; untimed = refl };
  same_rule = refl;
}

data-Pointed : Pointed layout ends 2
data-Pointed = record {
  local = refl;
  local_signo = refl;
  remote = refl;
  sized = refl;
  positive = omega arith;
  ruled = refl;
}

implicit-Pointed : Pointed layout ends 3
implicit-Pointed = record {
  local = refl;
  local_signo = refl;
  remote = refl;
  sized = refl;
  positive = omega arith;
  ruled = refl;
}

driven_of : Option LinearTable → ℕ
driven_of none = 0
driven_of (some t) = t.driven_index

time-Current : Current time_entry time_signal
unfolding driven_of
time-Current = record {
  same_table = refl;
  same_index = λ h. refl;
  index_small = omega arith;
  table_small = λ t h. omega (arith, ap driven_of h);
}

data-Current : Current data_entry data_signal
data-Current = record {
  same_table = refl;
  same_index = λ h. refl;
  index_small = omega arith;
  table_small = λ t h. cc;
}

implicit-Current : Current implicit_entry implicit_signal
implicit-Current = record {
  same_table = refl;
  same_index = λ h. refl;
  index_small = omega arith;
  table_small = λ t h. cc;
}

at_data : (P : ℕ → Type 0) → P 2 → P 3 → (n : ℕ) → layout.IsData n → P n
at_data P two three n (inl h) = subst P (sym h) two
at_data P two three n (inr h) = subst P (sym h) three

at_live : (P : ℕ → Type 0) → P 1 → P 2 → P 3 → (n : ℕ) → layout.IsLive n → P n
at_live P one two three n (inl h) = subst P (sym h) one
at_live P one two three n (inr h) = at_data P two three n h

ends-InSync : InSync layout ends
ends-InSync = record {
  bound = at_live (Bound layout ends) time-Bound data-Bound implicit-Bound;
  pointed = at_data (Pointed layout ends) data-Pointed implicit-Pointed;
  current =
      at_live (λ n. Current (ends.entries n) (ends.signals n)) time-Current data-Current
        implicit-Current;
  plain = at_data (λ k. (ends.entries k).table ≡ none) refl refl;
  has_table = λ n h. (table, refl);
}

-- The second one leaves a gap in time; the third is one sample of the implicit signal.
abbrev publications : List Publication
publications =
    record { number = 2; domain_value = 100; sample_count = 2; bytes = 1 ∷ 2 ∷ 3 ∷ 4 ∷ [] }
    ∷ record { number = 2; domain_value = 500; sample_count = 1; bytes = 5 ∷ 6 ∷ [] }
    ∷ record { number = 3; domain_value = 700; sample_count = 1; bytes = 7 ∷ 8 ∷ [] }
    ∷ []

publications-AllWhole : Delivery.AllWhole layout publications
publications-AllWhole = (
  record {
    carried = inl refl;
    small = omega arith;
    some_samples = omega arith;
    sized = refl;
    single = λ h. cc;
  },
  (
    record {
      carried = inl refl;
      small = omega arith;
      some_samples = omega arith;
      sized = refl;
      single = λ h. cc;
    },
    (
      record {
        carried = inr refl;
        small = omega arith;
        some_samples = omega arith;
        sized = refl;
        single = λ h. refl;
      },
      tt,
    ),
  ),
)

delivered_example :
    let (b, reports) = Delivery.publish_all ends publications in
    InSync layout b × (with_samples reports ≡ map (Delivery.expected layout) publications)
delivered_example = Delivery.delivered layout ends publications ends-InSync publications-AllWhole

read-payload_bytes_example :
    let p : LinearPayload = record { sample_index = 3; value = 500 } in
    (read_payload (payload_bytes p) ≡ p) × (length (payload_bytes p) ≡ 16)
read-payload_bytes_example =
    read-payload_bytes (record { sample_index = 3; value = 500 }) (omega arith) (omega arith)

handle_time_late_example :
    (Data.handle_time data_signal 7 0).tcp_time ≡ (7 + 946684800) * 1000000000 + 500000000
handle_time_late_example = Data.handle_time_late data_signal 7 (omega arith)
