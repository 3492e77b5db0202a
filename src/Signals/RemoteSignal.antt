-- ===== src/Signals/RemoteSignal.antt =====
-- A remote signal, src/detail/remote_signal_impl.cpp: its state and its subscriptions; its metadata
-- and its data are in Data. The slots that are called are returned in order. `unsigned` has 32 bits.
pub mod Data
use ws_streaming.Prelude.{
  ℕ, zero, suc, ◌+◌, ◌-◌, ◌%◌, ◌^◌, ◌≡◌, ◌<◌, List, [], ◌∷◌, ◌++◌, Bool, true, false, ◌==◌, not,
  if◌then◌else◌, arith, Option, none,
}
use ws_streaming.Signals.LinearTable.{LinearTable}
use ws_streaming.Signals.Metadata.{Metadata}

pub data Event : Type 0 where
  subscribe_requested unsubscribe_requested subscribed unsubscribed unavailable : Event

-- `table_made` counts how often a table was made, and the weak pointer to a domain signal's table is
-- the address of that signal with its count at the time. The owning pointer `_domain_signal` is not
-- kept apart: it only keeps the signal alive.
pub record RemoteSignal : Type 0 where
  pub subscription_count : ℕ
  pub is_subscribed : Bool
  pub signo : ℕ
  pub table : Option LinearTable
  pub table_made : ℕ
  pub domain_table : Option (ℕ × ℕ)
  pub metadata : Metadata
  pub is_explicit : Bool
  pub sample_size : ℕ
  pub value_index : ℕ
  pub tcp_delta : ℕ
  pub tcp_time : ℕ

-- The metadata of an empty object.
abbrev pub remote_signal_impl : Metadata → RemoteSignal
remote_signal_impl metadata = record {
  subscription_count = 0;
  is_subscribed = false;
  signo = 0;
  table = none;
  table_made = 0;
  domain_table = none;
  metadata = metadata;
  is_explicit = false;
  sample_size = 0;
  value_index = 0;
  tcp_delta = 0;
  tcp_time = 0;
}

unfoldable pub subscribe : RemoteSignal → RemoteSignal × List Event
subscribe s = (
  record s { subscription_count = (s.subscription_count + 1) % 2 ^ 32 },
  if not (s.subscription_count == 0) then [] else subscribe_requested ∷ [],
)

-- The count wraps below 0.
unfoldable pub unsubscribe : RemoteSignal → RemoteSignal × List Event
unsubscribe s =
    let count = (s.subscription_count + (2 ^ 32 - 1)) % 2 ^ 32 in
    (
      record s { subscription_count = count },
      if not (count == 0) then [] else unsubscribe_requested ∷ [],
    )

unfoldable pub handle_subscribe : RemoteSignal → RemoteSignal × List Event
handle_subscribe s =
    if s.is_subscribed then (s, []) else (record s { is_subscribed = true }, subscribed ∷ [])

unfoldable pub handle_unsubscribe : RemoteSignal → RemoteSignal × List Event
handle_unsubscribe s =
    if not s.is_subscribed then (s, []) else (record s { is_subscribed = false }, unsubscribed ∷ [])

unfoldable pub set_signo : RemoteSignal → ℕ → RemoteSignal
set_signo s n = record s { signo = n }

unfoldable pub detach : RemoteSignal → RemoteSignal × List Event
detach s =
    if s.is_subscribed
    then (record s { is_subscribed = false; signo = 0 }, unsubscribed ∷ unavailable ∷ [])
    else (s, unavailable ∷ [])

-- The state after `n` more subscriptions.
pub subscribe_many : ℕ → RemoteSignal → RemoteSignal × List Event
unfolding subscribe
subscribe_many zero s = (s, [])
subscribe_many (suc n) s =
    let (s', events) = subscribe s in let (s'', more) = subscribe_many n s' in (s'', events ++ more)

pub unsubscribe_many : ℕ → RemoteSignal → RemoteSignal × List Event
unsubscribe_many zero s = (s, [])
unsubscribe_many (suc n) s =
    let (s', events) = unsubscribe s in
    let (s'', more) = unsubscribe_many n s' in (s'', events ++ more)

subscribe_many_lem :
    (n : ℕ) (s : RemoteSignal)
    → 0 < s.subscription_count
    → s.subscription_count + n < 2 ^ 32
    → subscribe_many n s ≡ (record s { subscription_count = s.subscription_count + n }, [])
unfolding subscribe_many subscribe
subscribe_many_lem zero s pos h = ground arith
subscribe_many_lem (suc n) s pos h =
    ground
      (arith, subscribe_many_lem n (record s { subscription_count = s.subscription_count + 1 }))

unsubscribe_many_lem :
    (n : ℕ) (s : RemoteSignal)
    → n < s.subscription_count
    → s.subscription_count < 2 ^ 32
    → unsubscribe_many n s ≡ (record s { subscription_count = s.subscription_count - n }, [])
unfolding unsubscribe_many unsubscribe
unsubscribe_many_lem zero s pos h = ground arith
unsubscribe_many_lem (suc n) s pos h =
    ground
      (arith, unsubscribe_many_lem n (record s { subscription_count = s.subscription_count - 1 }))

-- For a signal without subscriptions, any number of subscriptions below 2^32 asks the other end
-- once; of as many cancellations only the last tells the other end, and it leaves the signal as
-- it was.
pub subscribe-unsubscribe :
    (n : ℕ) (s : RemoteSignal)
    → s.subscription_count ≡ 0
    → n + 1 < 2 ^ 32
    → let (s1, asked) = subscribe_many (suc n) s in
      let (s2, silent) = unsubscribe_many n s1 in
      let (s3, told) = unsubscribe s2 in
      (asked ≡ subscribe_requested ∷ [])
      × (silent ≡ [])
      × (told ≡ unsubscribe_requested ∷ [])
      × (s3 ≡ s)
unfolding subscribe_many subscribe unsubscribe
subscribe-unsubscribe n s z h =
    let one : RemoteSignal = record s { subscription_count = 1 } in
    let all : RemoteSignal = record s { subscription_count = 1 + n } in
    ground (arith, subscribe_many_lem n one, unsubscribe_many_lem n all)
