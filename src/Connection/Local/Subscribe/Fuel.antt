-- ===== src/Connection/Local/Subscribe/Fuel.antt =====
-- `unsubscribe` comes to an end: each call for a domain signal takes away the last subscription of a
-- signal that had one.
use Prim.Native.String.{String}
use ws_streaming.Prelude.{
  ℕ, zero, suc, ◌+◌, ◌%◌, ◌^◌, ◌≤◌, ◌<◌, ◌≡◌, refl, sym, ap, ◌∙◌, List, [], ◌∷◌, length, Bool, true,
  false, Option, none, some, ◌==◌, not, ◌&&◌, if◌then◌else◌, arith, Bool-cases, Option-cases,
  some-injective, inl, inr,
}
use ws_streaming.Signals.Ids.{same_id}
use ws_streaming.Signals.LocalContainer.{RegisteredLocalSignal, find_local_signal_id}
use ws_streaming.Connection.Local.{
  Local, Outgoing, unsubscribe_message, replace, store, has_domain, metadata_of, release,
}
use ws_streaming.Connection.Local.Subscribe.{
  is_subscribed, count_down, drop_holder, report_dropped, unsubscribe_entry, unsubscribe_with,
}

pub found-nil : (id : String) (e : RegisteredLocalSignal) → ¬ (find_local_signal_id [] id ≡ some e)
unfolding find_local_signal_id
found-nil id e f = cc

pub found-head :
    (id : String) (x : RegisteredLocalSignal) (es : List RegisteredLocalSignal)
    → same_id x.signal.id id ≡ true
    → find_local_signal_id (x ∷ es) id ≡ some x
unfolding find_local_signal_id
found-head id x es h = rw h

pub found-tail :
    (id : String) (x : RegisteredLocalSignal) (es : List RegisteredLocalSignal)
    → same_id x.signal.id id ≡ false
    → find_local_signal_id (x ∷ es) id ≡ find_local_signal_id es id
unfolding find_local_signal_id
found-tail id x es h = rw h

-- Whether the next cancellation by a domain's signal is the last.
is_last : RegisteredLocalSignal → Bool
is_last e = not e.is_explicitly_subscribed && (e.implicit_subscribe_count % 2 ^ 32 == 1)

last_ones : List RegisteredLocalSignal → ℕ
last_ones [] = 0
last_ones (e ∷ es) = (if is_last e then 1 else 0) + last_ones es

last_ones-length : (es : List RegisteredLocalSignal) → last_ones es ≤ length es
unfolding last_ones
last_ones-length [] = omega arith
last_ones-length (e ∷ es) = ground (arith, last_ones-length es)

-- An entry that is put in place and is not a last one adds none.
last_ones-replace :
    (new : RegisteredLocalSignal) (es : List RegisteredLocalSignal)
    → is_last new ≡ false
    → last_ones (replace new es) ≤ last_ones es
unfolding last_ones replace
last_ones-replace new [] h = omega arith
last_ones-replace new (e ∷ es) h = ground (arith, last_ones-replace new es)

-- It takes one away where the entry that was found is one.
last_ones-replace_found :
    (id : String) (e new : RegisteredLocalSignal) (es : List RegisteredLocalSignal)
    → find_local_signal_id es id ≡ some e
    → is_last e ≡ true
    → is_last new ≡ false
    → new.signo ≡ e.signo
    → last_ones (replace new es) < last_ones es
unfolding last_ones replace
last_ones-replace_found id e new [] f h k s = absurd (found-nil id e f)
last_ones-replace_found id e new (x ∷ es) f h k s = elim (Bool-cases (same_id x.signal.id id)) [
  | inl y ↦
      let at : x ≡ e = some-injective x e (sym (found-head id x es y) ∙ f) in
      let here : is_last x ≡ true = ap is_last at ∙ h in
      let number : x.signo ≡ new.signo = ap (λ (z : RegisteredLocalSignal). z.signo) at ∙ sym s in
      ground (arith, here, number, k, last_ones-replace new es k)
  | inr y ↦
      let rest = last_ones-replace_found id e new es (sym (found-tail id x es y) ∙ f) h k s in
      ground (arith, rest, k)
]

-- What the steps of `unsubscribe` leave of the entries that are last ones.
drop_holder-last_ones :
    (c : Local) (e : RegisteredLocalSignal)
    → is_last e ≡ false
    → last_ones (drop_holder c e).signals ≤ last_ones c.signals
unfolding drop_holder store release is_last
drop_holder-last_ones c e h =
    let shut : RegisteredLocalSignal = record e { connected = false } in
    ground (arith, last_ones-replace shut c.signals h)

-- An explicit call, or one that takes the last count of an entry, leaves no more subscription.
dropped-last :
    (e : RegisteredLocalSignal) (is_explicit : Bool)
    → is_subscribed (count_down e is_explicit) ≡ false
    → is_last (count_down e is_explicit) ≡ false
unfolding is_subscribed is_last
dropped-last e is_explicit h = ground arith

last-counted :
    (e : RegisteredLocalSignal) → is_subscribed (count_down e false) ≡ false → is_last e ≡ true
unfolding is_subscribed is_last count_down
last-counted e h = ground arith

count_down-signo :
    (e : RegisteredLocalSignal) (is_explicit : Bool) → (count_down e is_explicit).signo ≡ e.signo
unfolding count_down
count_down-signo e is_explicit = ground arith

-- What a call for a domain signal has left to do when it goes on.
domain_step :
    (c : Local) (id : String) (e : RegisteredLocalSignal)
    → find_local_signal_id c.signals id ≡ some e
    → let e' = count_down e false in
      is_subscribed e' ≡ false
      → last_ones (drop_holder (store c e') e').signals < last_ones c.signals
unfolding store
domain_step c id e f h =
    let e' = count_down e false in
    let gone = dropped-last e false h in
    omega (
      arith,
      drop_holder-last_ones (store c e') e' gone,
      last_ones-replace_found id e e' c.signals f (last-counted e h) gone
          (count_down-signo e false),
    )

report_dropped-some :
    (e : RegisteredLocalSignal) (o : Option (Local × Bool × List Outgoing))
    → (r : Local × Bool × List Outgoing) × (o ≡ some r)
    → (r : Local × Bool × List Outgoing) × (report_dropped e o ≡ some r)
unfolding report_dropped
report_dropped-some e o (r, h) =
    ((r.0, true, record { signo = e.signo; message = unsubscribe_message e.signal.id } ∷ r.2), rw h)

-- A call ends if the one that it makes ends.
entry_ends :
    (nested : Local → String → Option (Local × Bool × List Outgoing)) (c : Local)
    (e : RegisteredLocalSignal) (id : String) (is_explicit : Bool)
    → (let e' = count_down e is_explicit in
        (table_id : String)
        → is_subscribed e' ≡ false
        → (r : Local × Bool × List Outgoing) × (nested (drop_holder (store c e') e') table_id
            ≡ some r))
    → (r : Local × Bool × List Outgoing) × (unsubscribe_entry nested c e id is_explicit ≡ some r)
unfolding unsubscribe_entry
entry_ends nested c e id is_explicit next =
    let e' = count_down e is_explicit in
    let table_id = (metadata_of c e').table_id in
    let dropped = drop_holder (store c e') e' in
    elim (Bool-cases (is_subscribed e')) [
      | inl s ↦ ((store c e', false, []), rw (s, unsubscribe_entry))
      | inr s ↦ elim (Bool-cases (has_domain table_id id)) [
        | inl d ↦
            let (r, k) = report_dropped-some e' (nested dropped table_id) (next table_id s) in
            (r, rw (s, d, unsubscribe_entry) k)
        | inr d ↦
            let (r, k) =
              report_dropped-some e' (some (dropped, false, [])) ((dropped, false, []), refl) in
            (r, rw (s, d, unsubscribe_entry) k)
      ]
    ]

unsubscribe_step :
    (fuel : ℕ) (c : Local) (id : String) (is_explicit : Bool)
    → ((e : RegisteredLocalSignal) (table_id : String)
        → find_local_signal_id c.signals id ≡ some e
        → let e' = count_down e is_explicit in
          is_subscribed e' ≡ false
          → (r : Local × Bool × List Outgoing) × (unsubscribe_with fuel
                (drop_holder (store c e') e')
                table_id
                false
              ≡ some r))
    → (r : Local × Bool × List Outgoing) × (unsubscribe_with (suc fuel) c id is_explicit ≡ some r)
unfolding unsubscribe_with
unsubscribe_step fuel c id is_explicit next =
    let nested = λ (d : Local) (table_id : String). unsubscribe_with fuel d table_id false in
    let step = λ (o : Option RegisteredLocalSignal).
      elim o as (λ _. Option (Local × Bool × List Outgoing)) [
        | none ↦ some (c, false, [])
        | some e ↦ unsubscribe_entry nested c e id is_explicit
      ] in
    elim (Option-cases (find_local_signal_id c.signals id)) [
      | inl n ↦ ((c, false, []), ap step n)
      | inr (e, f) ↦
          let (r, k) = entry_ends nested c e id is_explicit (λ table_id s. next e table_id f s) in
          (r, ap step f ∙ k)
    ]

unsubscribe_domain_ends :
    (fuel : ℕ) (c : Local) (id : String)
    → last_ones c.signals < fuel
    → (r : Local × Bool × List Outgoing) × (unsubscribe_with fuel c id false ≡ some r)
unsubscribe_domain_ends zero c id h = absurd (omega (arith, h))
unsubscribe_domain_ends (suc fuel) c id h = unsubscribe_step fuel c id false (λ e table_id f s.
    unsubscribe_domain_ends fuel (drop_holder (store c (count_down e false)) (count_down e false))
      table_id (omega (arith, domain_step c id e f s, h)))

-- `unsubscribe` comes to an end along any chain of table ids, cycles included: fuel of two more
-- than the number of signals gives a result.
pub unsubscribe_ends :
    (fuel : ℕ) (c : Local) (id : String) (is_explicit : Bool)
    → length c.signals + 2 ≤ fuel
    → (r : Local × Bool × List Outgoing) × (unsubscribe_with fuel c id is_explicit ≡ some r)
unfolding store
unsubscribe_ends zero c id is_explicit h = absurd (omega (arith, h))
unsubscribe_ends (suc fuel) c id is_explicit h =
    unsubscribe_step fuel c id is_explicit (λ e table_id f s.
      let e' = count_down e is_explicit in
      let gone = dropped-last e is_explicit s in
      unsubscribe_domain_ends fuel (drop_holder (store c e') e') table_id (
        omega (
          arith,
          h,
          drop_holder-last_ones (store c e') e' gone,
          last_ones-replace e' c.signals gone,
          last_ones-length c.signals,
        )))
