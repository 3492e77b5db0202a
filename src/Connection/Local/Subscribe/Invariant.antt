-- ===== src/Connection/Local/Subscribe/Invariant.antt =====
-- A signal's slots and holder are in place exactly while the other end has subscribed it.
use Prim.Native.String.{String}
use ws_streaming.Prelude.{
  ℕ, ◌+◌, ◌^◌, ◌<◌, ◌≡◌, ◌≢◌, ◌⊎◌, refl, sym, ◌∙◌, subst, List, [], ◌∷◌, Bool, true, false, none,
  some, ◌==◌, ◌&&◌, arith, Bool-cases, Option-cases, some-injective, inl, inr,
}
use ws_streaming.Signals.Ids.{same_id}
use ws_streaming.Signals.Metadata
use ws_streaming.Signals.Metadata.{Metadata}
use ws_streaming.Signals.LocalContainer.{RegisteredLocalSignal, find_local_signal_id}
use ws_streaming.Connection.Local.{
  Local, Outgoing, replace, store, has_domain, metadata_of, make_table, hold, release,
  refresh_table, bind_domain, refresh_local_signal_bindings,
}
use ws_streaming.Connection.Local.Subscribe.{
  is_subscribed, count_up, take_holder, start_sending, subscribe_new, subscribe_with,
  subscribe_domain, subscribe,
}
use ws_streaming.Connection.Local.Subscribe.Fuel.{found-nil, found-head, found-tail}

abbrev pub All : (RegisteredLocalSignal → Type 0) → List RegisteredLocalSignal → Type 0
All P [] = Unit {0}
All P (e ∷ es) = P e × All P es

pub record IsConnected (e : RegisteredLocalSignal) : Type 0 where
  pub connected_iff : e.connected ≡ is_subscribed e

-- One more subscription can be counted.
pub record HasRoom (e : RegisteredLocalSignal) : Type 0 where
  pub room : e.implicit_subscribe_count + 1 < 2 ^ 32

-- The invariant, except at the numbers `Q`.
record Except (Q : ℕ → Type 0) (e : RegisteredLocalSignal) : Type 0 where
  holds : ¬ Q e.signo → IsConnected e

module _ (P : RegisteredLocalSignal → Type 0) where
  All-replace :
      (new : RegisteredLocalSignal) (es : List RegisteredLocalSignal)
      → P new
      → All P es
      → All P (replace new es)
  unfolding replace
  All-replace new [] p a = tt
  All-replace new (e ∷ es) p (h, t) = elim (Bool-cases (e.signo == new.signo)) [
    | inl x ↦ rw x (p, All-replace new es p t)
    | inr x ↦ rw x (h, All-replace new es p t)
  ]

  All-found :
      (id : String) (e : RegisteredLocalSignal) (es : List RegisteredLocalSignal)
      → find_local_signal_id es id ≡ some e
      → All P es
      → P e
  All-found id e [] f a = absurd (found-nil id e f)
  All-found id e (x ∷ es) f (h, t) = elim (Bool-cases (same_id x.signal.id id)) [
    | inl y ↦ subst P (some-injective x e (sym (found-head id x es y) ∙ f)) h
    | inr y ↦ All-found id e es (sym (found-tail id x es y) ∙ f) t
  ]

  All-map :
      (R : RegisteredLocalSignal → Type 0)
      → ((e : RegisteredLocalSignal) → P e → R e)
      → (es : List RegisteredLocalSignal) → All P es
      → All R es
  All-map R f [] a = tt
  All-map R f (e ∷ es) (h, t) = (f e h, All-map R f es t)

-- An entry that is good takes the place of the exception.
restore :
    (Q : ℕ → Type 0) (new : RegisteredLocalSignal) (es : List RegisteredLocalSignal)
    → IsConnected new
    → All (Except (λ k. Q k ⊎ (k ≡ new.signo))) es
    → All (Except Q) (replace new es)
unfolding replace
restore Q new [] g a = tt
restore Q new (e ∷ es) g (h, t) = elim (Bool-cases (e.signo == new.signo)) [
  | inl x ↦ rw x (record { holds = λ _. g }, restore Q new es g t)
  | inr x ↦
      let apart : e.signo ≢ new.signo = λ k. ground (arith, x, k) in
      rw x (
        record { holds = λ q. h.holds (λ s. elim s [ inl y ↦ q y | inr y ↦ apart y ]) },
        restore Q new es g t,
      )
]

-- The same signal with the same subscriptions.
KeepsCounts : RegisteredLocalSignal → RegisteredLocalSignal → Type 0
KeepsCounts e e' =
    (e'.signo ≡ e.signo)
    × (e'.is_explicitly_subscribed ≡ e.is_explicitly_subscribed)
    × (e'.implicit_subscribe_count ≡ e.implicit_subscribe_count)

refresh_table_keeps : (e : RegisteredLocalSignal) (m : Metadata) → KeepsCounts e (refresh_table e m)
unfolding KeepsCounts refresh_table make_table
refresh_table_keeps e m = elim (Bool-cases (same_id m.rule Metadata.linear_rule)) [
  | inl h ↦ elim (Option-cases e.table) [
    | inl x ↦ simp (h, x) (refl, refl, refl)
    | inr (y, x) ↦ simp (h, x) (refl, refl, refl)
  ]
  | inr h ↦ simp h (refl, refl, refl)
]

bind_domain_keeps : (c : Local) (e : RegisteredLocalSignal) → KeepsCounts e (bind_domain c e)
unfolding KeepsCounts bind_domain
bind_domain_keeps c e =
    let m = metadata_of c e in
    elim (Bool-cases (has_domain m.table_id e.signal.id)) [
      | inl h ↦ elim (Option-cases (find_local_signal_id c.signals m.table_id)) [
        | inl x ↦ simp (h, x) (refl, refl, refl)
        | inr (y, x) ↦ simp (h, x) (refl, refl, refl)
      ]
      | inr h ↦ simp h (refl, refl, refl)
    ]

-- What the refreshed entry keeps.
refresh_keeps :
    (c : Local) (e : RegisteredLocalSignal) → KeepsCounts e (refresh_local_signal_bindings c e)
unfolding refresh_local_signal_bindings KeepsCounts
refresh_keeps c e =
    let (a, b, d) = refresh_table_keeps e (metadata_of c e) in
    let (a', b', d') =
      bind_domain_keeps c
        (record (refresh_table e (metadata_of c e)) { domain_signo = 0; domain_table = none }) in
    (a' ∙ a, b' ∙ b, d' ∙ d)

take_holder-signals :
    (c : Local) (e : RegisteredLocalSignal) → (take_holder c e).signals ≡ c.signals
unfolding take_holder hold release
take_holder-signals c e = ground arith

-- What is asked of the call for the domain signal.
Preserves : (Local → String → Local × List Outgoing) → Type 1
Preserves nested =
    (Q : ℕ → Type 0) (c : Local) (id : String)
    → All HasRoom c.signals
    → All (Except Q) c.signals
    → All (Except Q) (nested c id).0.signals

start_sending-IsConnected :
    (Q : ℕ → Type 0) (c : Local) (e : RegisteredLocalSignal)
    → is_subscribed e ≡ true
    → All (Except (λ k. Q k ⊎ (k ≡ e.signo))) c.signals
    → All (Except Q) (start_sending c e).0.signals
unfolding start_sending store KeepsCounts is_subscribed
start_sending-IsConnected Q c e s a =
    let (number, explicit, count) = refresh_keeps c e in
    let e' : RegisteredLocalSignal = record (refresh_local_signal_bindings c e) {
      connected = true;
    } in
    restore Q e' c.signals (record { connected_iff = rw (explicit, count) (sym s) })
      (All-map (Except (λ k. Q k ⊎ (k ≡ e.signo))) (Except (λ k. Q k ⊎ (k ≡ e'.signo)))
        (λ x h. record {
          holds =
              λ q. h.holds (λ z. elim z [ inl y ↦ q (inl y) | inr y ↦ q (inr (y ∙ sym number)) ]);
        })
        c.signals a)

-- The signals after the call for the domain signal, if there is one.
subscribe_new-IsConnected :
    (nested : Local → String → Local × List Outgoing) (Q : ℕ → Type 0) (c : Local)
    (e : RegisteredLocalSignal) (id : String) (is_explicit : Bool)
    → Preserves nested
    → is_subscribed e ≡ true
    → (is_explicit ≡ true → All HasRoom c.signals)
    → All (Except (λ k. Q k ⊎ (k ≡ e.signo))) c.signals
    → All (Except Q) (subscribe_new nested c e id is_explicit).0.signals
unfolding Preserves subscribe_new
subscribe_new-IsConnected nested Q c e id is_explicit kept s room a =
    let held = take_holder c e in
    let same = take_holder-signals c e in
    let table_id = (metadata_of c e).table_id in
    let exempt = λ (k : ℕ). Q k ⊎ (k ≡ e.signo) in
    let still : All (Except exempt) held.signals = subst (All (Except exempt)) (sym same) a in
    elim (Bool-cases (is_explicit && has_domain table_id id)) [
      | inl h ↦
          simp (h, subscribe_new)
            (start_sending-IsConnected Q (nested held table_id).0 e s (
              kept exempt held table_id (subst (All HasRoom) (sym same) (room (ground arith)))
                still))
      | inr h ↦ simp (h, subscribe_new) (start_sending-IsConnected Q held e s still)
    ]

-- A count goes up to a subscription.
count_up-is_subscribed :
    (e : RegisteredLocalSignal) (is_explicit : Bool)
    → HasRoom e
    → let e' = count_up e is_explicit in
      (is_subscribed e' ≡ true)
      × (e'.signo ≡ e.signo)
      × (e'.connected ≡ e.connected)
      × (is_explicit ≡ true → HasRoom e')
unfolding count_up is_subscribed
count_up-is_subscribed e true h = (refl, refl, refl, λ _. record { room = h.room })
count_up-is_subscribed e false h = (ground (arith, h.room), refl, refl, λ k. cc)

subscribe_with-IsConnected :
    (nested : Local → String → Local × List Outgoing) (Q : ℕ → Type 0) (c : Local) (id : String)
    (is_explicit : Bool)
    → Preserves nested
    → All HasRoom c.signals
    → All (Except Q) c.signals
    → All (Except Q) (subscribe_with nested c id is_explicit).0.signals
unfolding subscribe_with store
subscribe_with-IsConnected nested Q c id is_explicit kept room a =
    elim (Option-cases (find_local_signal_id c.signals id)) [
      | inl n ↦ simp (n, subscribe_with) a
      | inr (e, f) ↦
          let e' = count_up e is_explicit in
          let (on, number, slots, still_room) =
            count_up-is_subscribed e is_explicit (All-found HasRoom id e c.signals f room) in
          elim (Bool-cases (is_subscribed e)) [
            | inl s ↦
                simp (f, s, subscribe_with)
                  (All-replace (Except Q) e' c.signals
                    (record {
                      holds = λ q. record {
                        connected_iff =
                            slots
                            ∙ ((All-found (Except Q) id e c.signals f a).holds
                                (λ z. q (subst Q (sym number) z))).connected_iff
                            ∙ s
                            ∙ sym on;
                      };
                    })
                    a)
            | inr s ↦
                simp (f, s, subscribe_with)
                  (subscribe_new-IsConnected nested Q (store c e') e' id is_explicit kept on
                    (λ x. All-replace HasRoom e' c.signals (still_room x) room)
                    (All-replace (Except (λ k. Q k ⊎ (k ≡ e'.signo))) e' c.signals
                      (record { holds = λ q. absurd (q (inr refl)) })
                      (All-map (Except Q) (Except (λ k. Q k ⊎ (k ≡ e'.signo)))
                        (λ x h. record { holds = λ q. h.holds (λ z. q (inl z)) }) c.signals a)))
          ]
    ]

subscribe_domain-IsConnected : Preserves subscribe_domain
unfolding Preserves subscribe_domain
subscribe_domain-IsConnected Q c id room a =
    subscribe_with-IsConnected (λ d _. (d, [])) Q c id false (λ R d _ _ b. b) room a

-- Where every signal's slots and holder are in place exactly if it is subscribed, and each count
-- is below 2^32 - 1, `subscribe` keeps them so, for the signal and for its domain signal.
pub subscribe-IsConnected :
    (c : Local) (id : String) (is_explicit : Bool)
    → All HasRoom c.signals
    → All IsConnected c.signals
    → All IsConnected (subscribe c id is_explicit).0.signals
unfolding subscribe
subscribe-IsConnected c id is_explicit room a =
    let none_exempt = λ (k : ℕ). ⊥ in
    All-map (Except none_exempt) IsConnected (λ e h. h.holds (λ z. z))
      (subscribe c id is_explicit).0.signals
      (subscribe_with-IsConnected subscribe_domain none_exempt c id is_explicit
        subscribe_domain-IsConnected room
        (All-map IsConnected (Except none_exempt) (λ e h. record { holds = λ _. h }) c.signals a))
