-- ===== src/Connection/Local/Subscribe/Wrap.antt =====
-- The count of a domain signal below 0.
use Prim.Native.String.{String}
use ws_streaming.Prelude.{
  ℕ, suc, ◌+◌, ◌-◌, ◌%◌, ◌^◌, ◌≡◌, ap, ◌∙◌, [], Bool, true, false, some, arith,
}
use ws_streaming.Signals.LocalContainer.{RegisteredLocalSignal, find_local_signal_id}
use ws_streaming.Connection.Local.{Local, store}
use ws_streaming.Connection.Local.Subscribe.{
  is_subscribed, count_up, count_down, subscribe_with, subscribe_domain, unsubscribe_entry,
  unsubscribe_with,
}

unsubscribe_with-found :
    (fuel : ℕ) (c : Local) (id : String) (is_explicit : Bool) (e : RegisteredLocalSignal)
    → find_local_signal_id c.signals id ≡ some e
    → is_subscribed (count_down e is_explicit) ≡ true
    → unsubscribe_with (suc fuel) c id is_explicit
      ≡ some (store c (count_down e is_explicit), false, [])
unfolding unsubscribe_with unsubscribe_entry
unsubscribe_with-found fuel c id is_explicit e f s =
    simp (f, s, unsubscribe_with, unsubscribe_entry)

subscribe_domain-found :
    (c : Local) (id : String) (e : RegisteredLocalSignal)
    → find_local_signal_id c.signals id ≡ some e
    → is_subscribed e ≡ true
    → subscribe_domain c id ≡ (store c (count_up e false), [])
unfolding subscribe_domain subscribe_with
subscribe_domain-found c id e f s = simp (f, s, subscribe_domain, subscribe_with)

-- A cancellation for a domain signal without implicit subscriptions makes its count 2^32 - 1 and
-- tells nobody; where an entry has that count, the next subscription for the domain signal makes
-- it 0 and sends nothing.
pub unsubscribe_wraps :
    (fuel : ℕ) (c d : Local) (id : String) (e : RegisteredLocalSignal)
    → find_local_signal_id c.signals id ≡ some e
    → e.implicit_subscribe_count ≡ 0
    → let e' : RegisteredLocalSignal = record e { implicit_subscribe_count = 2 ^ 32 - 1 } in
      find_local_signal_id d.signals id ≡ some e'
      → (unsubscribe_with (suc fuel) c id false ≡ some (store c e', false, []))
        × (subscribe_domain d id ≡ (store d (record e { implicit_subscribe_count = 0 }), []))
unfolding count_down count_up is_subscribed
unsubscribe_wraps fuel c d id e f z g =
    let e' : RegisteredLocalSignal = record e { implicit_subscribe_count = 2 ^ 32 - 1 } in
    let down : count_down e false ≡ e' =
      ap (λ (n : ℕ). record e { implicit_subscribe_count = (n + (2 ^ 32 - 1)) % 2 ^ 32 }) z in
    (
      unsubscribe_with-found fuel c id false e f (ground (arith, z))
          ∙ ap (λ (x : RegisteredLocalSignal). some (store c x, false, [])) down,
      subscribe_domain-found d id e' g (ground arith),
    )
