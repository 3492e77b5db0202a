-- ===== src/Connection/Dispatch/Rejects.antt =====
-- The messages that a remote signal rejects with an exception, src/detail/remote_signal_impl.cpp and
-- src/metadata.cpp.
use Prim.Native.String.{String}
use ws_streaming.Prelude.{
  ◌≡◌, refl, ap, ◌∙◌, ℕ, Bool, true, false, ◌&&◌, Option, none, some, ◌==◌, arith, Bool-cases, inl,
  inr,
}
use ws_streaming.Signals.Ids.{same_id, same_id_iff}
use ws_streaming.Signals.Metadata.{SignalRate, tcp_signal_rate_ticks}
use ws_streaming.Signals.RemoteSignal.{RemoteSignal}
use ws_streaming.Metadata.Document.{Library, IsLibrary}
use ws_streaming.Metadata.Read.{metadata, member, object_in}
use ws_streaming.Metadata.Read.Sizes.{json_ptr, read_rate, rate_ticks, signal_rate_ticks}
use ws_streaming.Metadata.Build.{builder_from_json, tcp_signal_rate}
use ws_streaming.Metadata.Refinement.FromJson.{builder_from_json-IsBuilder}
use ws_streaming.Connection.Messages.{handle_signal_rate, handle_metadata}

unfoldable pub is_none {ℓ} : {A : Type ℓ} → Option A → Bool
is_none none = true
is_none (some a) = false

-- A rate has no ticks exactly where it is of no samples.
ticks-none : (r : SignalRate) → is_none (tcp_signal_rate_ticks r 1 1000000000) ≡ (r.samples == 0)
unfolding is_none tcp_signal_rate_ticks
ticks-none r = ground arith

module _ (doc : Library) (laws : IsLibrary doc) where
  -- A signal rate of no samples.
  unfoldable pub rejects : String → doc.Json → Bool
  unfolding json_ptr
  rejects method params =
      same_id method "signalRate" && doc.is_object params && json_ptr doc params "/samples" 1 == 0

  rate_ticks-none :
      (params : doc.Json)
      → is_none (rate_ticks doc (object_in doc (some params)) 1 1000000000)
        ≡ (doc.is_object params && json_ptr doc params "/samples" 1 == 0)
  unfolding is_none rate_ticks object_in read_rate
  rate_ticks-none params = elim (Bool-cases (doc.is_object params)) [
    | inl e ↦ rw (object_in, e) (ticks-none (read_rate doc params))
    | inr e ↦ rw (object_in, e) refl
  ]

  signal_rate_ticks_lem :
      (json params : doc.Json)
      → doc.is_object json ≡ true
      → signal_rate_ticks doc (metadata doc (tcp_signal_rate doc json params)) 1 1000000000
        ≡ rate_ticks doc (object_in doc (some params)) 1 1000000000
  unfolding signal_rate_ticks metadata tcp_signal_rate member
  signal_rate_ticks_lem json params h =
      rw
        (
          metadata,
          laws.set_is json "signalRate" params h,
          member,
          laws.set_contains json "signalRate" params "signalRate" h,
          laws.set_at json "signalRate" params "signalRate" h,
        )
        refl

  is_none_map :
      {A B : Type 0} (o : Option A) (f : A → B)
      → is_none (elim o [ none ↦ none | some a ↦ some (f a) ]) ≡ is_none o
  unfolding is_none
  is_none_map none f = refl
  is_none_map (some a) f = refl

  handle_signal_rate-none :
      (s : RemoteSignal) (document params : doc.Json)
      → is_none (handle_signal_rate doc s document params)
        ≡ (doc.is_object params && json_ptr doc params "/samples" 1 == 0)
  unfolding handle_signal_rate
  handle_signal_rate-none s document params =
      let built = builder_from_json doc document in
      is_none_map
        (signal_rate_ticks doc (metadata doc (tcp_signal_rate doc built params)) 1 1000000000) _
      ∙ ap is_none (
          signal_rate_ticks_lem built params
            (builder_from_json-IsBuilder doc laws document).object_is)
      ∙ rate_ticks-none params

  not_rate :
      (method key : String)
      → same_id method key ≡ true
      → same_id key "signalRate" ≡ false
      → same_id method "signalRate" ≡ false
  not_rate method key e d = rw ((same_id_iff method key).0 e) d

  pub handle_metadata-none :
      (s : RemoteSignal) (document : doc.Json) (id : String)
      (sought : RemoteSignal → String → Option (ℕ × ℕ)) (method : String) (params : doc.Json)
      → is_none (handle_metadata doc s document id sought method params) ≡ rejects method params
  unfolding is_none handle_metadata rejects
  handle_metadata-none s document id sought method params =
      elim (Bool-cases (same_id method "subscribe")) [
        | inl a ↦ rw (handle_metadata, a, not_rate method "subscribe" a refl) refl
        | inr a ↦ elim (Bool-cases (same_id method "unsubscribe")) [
          | inl b ↦ rw (handle_metadata, a, b, not_rate method "unsubscribe" b refl) refl
          | inr b ↦ elim (Bool-cases (same_id method "signal")) [
            | inl c ↦ rw (handle_metadata, a, b, c, not_rate method "signal" c refl) refl
            | inr c ↦ elim (Bool-cases (same_id method "signalRate")) [
              | inl d ↦ rw (handle_metadata, a, b, c, d) (handle_signal_rate-none s document params)
              | inr d ↦ elim (Bool-cases (same_id method "data")) [
                | inl e ↦ rw (handle_metadata, a, b, c, d, e) refl
                | inr e ↦ elim (Bool-cases (same_id method "time")) [
                  | inl f ↦ rw (handle_metadata, a, b, c, d, e, f) refl
                  | inr f ↦ rw (handle_metadata, a, b, c, d, e, f) refl
                ]
              ]
            ]
          ]
        ]
      ]
