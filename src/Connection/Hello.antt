-- ===== src/Connection/Hello.antt =====
-- What one end announces of its signals in `do_hello` of src/connection.cpp, the other end shows.
use Prim.Native.String.{String}
use ws_streaming.Prelude.{
  ◌≡◌, refl, sym, ap, ◌∙◌, subst, List, [], ◌∷◌, ◌++◌, map, Bool, true, false, none, some, not,
  if◌then◌else◌, Bool-cases, Option-cases, ◌⊎◌, inl, inr,
}
use ws_streaming.Signals.Ids.{same_id, same_id_iff}
use ws_streaming.Signals.RemoteContainer
use ws_streaming.Signals.RemoteContainer.{Entry, find_id}
use ws_streaming.Signals.LocalContainer.{RegisteredLocalSignal}
use ws_streaming.Connection.Receive.{Remote}
use ws_streaming.Connection.Local.{
  Local, Outgoing, available, unavailable, subscribe_message, unsubscribe_message, signal_message,
  announce,
}
use ws_streaming.Connection.Local.Subscribe.Invariant.{All}
use ws_streaming.Connection.Handlers.{
  Notice, unhide, add_signal, make_available, handle_available, handle_unavailable,
  handle_subscribe, handle_unsubscribe,
}
use ws_streaming.Connection.Handlers.Entries.{
  shows, find_id-append, find_id-append_old, same_id_refl, shows-unhide, shows-unhide_same,
}
use ws_streaming.Connection.Handlers.Visibility.{visible}

-- The message at the other end, with the parameters read; metadata is not about who is shown, and
-- where the code reads an erased entry, which is undefined, nothing is said.
pub receive_message : Remote → Outgoing → Remote × List Notice
receive_message r o = elim o.message [
  | available ids ↦ handle_available r ids
  | unavailable ids ↦ handle_unavailable r ids
  | subscribe_message id ↦ handle_subscribe r o.signo id
  | unsubscribe_message id ↦ elim (handle_unsubscribe r o.signo) [
    | none ↦ (r, [])
    | some told ↦ told
  ]
  | signal_message m ↦ (r, [])
]

pub receive_messages : Remote → List Outgoing → Remote × List Notice
receive_messages r [] = (r, [])
receive_messages r (o ∷ os) =
    let (r', notices) = receive_message r o in
    let (r'', more) = receive_messages r' os in (r'', notices ++ more)

shown_here :
    (es : List Entry) (id x : String) (e : Entry)
    → find_id id es ≡ some e
    → id ≡ x
    → shows (find_id x (unhide id es)) ≡ true
shown_here es id x e f h =
    subst (λ (z : String). shows (find_id z (unhide id es)) ≡ true) h (shows-unhide_same id es e f)

-- Once the id has its entry, showing it is a change of this entry only.
shown_after :
    (es es' : List Entry) (id : String) (e : Entry)
    → find_id id es' ≡ some e
    → ((x : String) → same_id id x ≡ false → find_id x es' ≡ find_id x es)
    → (x : String) → (shows (find_id x es) ≡ true) ⊎ (id ≡ x)
    → shows (find_id x (unhide id es')) ≡ true
shown_after es es' id e f other x (inr h) = shown_here es' id x e f h
shown_after es es' id e f other x (inl h) = elim (Bool-cases (same_id id x)) [
  | inl k ↦ shown_here es' id x e f ((same_id_iff id x).0 k)
  | inr k ↦ shows-unhide x id es' k ∙ ap shows (other x k) ∙ h
]

make_available-visible :
    (r : Remote) (id x : String)
    → (visible r x ≡ true) ⊎ (id ≡ x)
    → visible (make_available r id).0 x ≡ true
unfolding make_available add_signal RemoteContainer.add_remote_signal visible shows
make_available-visible r id x h =
    let es = r.container.by_id in
    elim (Option-cases (find_id id es)) [
      | inl n ↦
          let new : Entry = record {
            id = id;
            hidden = false;
            signo = 0;
            address = r.container.next_address;
          } in
          let there : find_id id (es ++ (new ∷ [])) ≡ some new =
            find_id-append id es new n
            ∙ ap (λ (b : Bool). if b then some new else none) (same_id_refl id) in
          simp (n, make_available, add_signal, RemoteContainer.add_remote_signal)
            (shown_after es (es ++ (new ∷ [])) id new there (λ y k. find_id-append_old y es new k) x
              h)
      | inr (e, f) ↦ elim (Bool-cases e.hidden) [
        | inl k ↦
            simp (f, k, make_available, add_signal, RemoteContainer.add_remote_signal)
              (shown_after es es id e f (λ y _. refl) x h)
        | inr k ↦
            simp (f, k, make_available, add_signal, RemoteContainer.add_remote_signal)
              (elim h [
                | inl y ↦ y
                | inr y ↦ ap (λ (z : String). shows (find_id z es)) (sym y) ∙ ap shows f ∙ ap not k
              ])
      ]
    ]

-- Signals stay shown while more are announced.
stays-visible :
    (r : Remote) (ids : List String) (x : String)
    → visible r x ≡ true
    → visible (handle_available r ids).0 x ≡ true
unfolding handle_available
stays-visible r [] x h = h
stays-visible r (id ∷ ids) x h =
    stays-visible (make_available r id).0 ids x (make_available-visible r id x (inl h))

All-visible :
    (r : Remote) (es : List RegisteredLocalSignal)
    → let ids = map (λ (e : RegisteredLocalSignal). e.signal.id) es in
      All (λ e. visible (handle_available r ids).0 e.signal.id ≡ true) es
unfolding handle_available
All-visible r [] = tt
All-visible r (e ∷ es) =
    let ids = map (λ (e : RegisteredLocalSignal). e.signal.id) es in
    let r' = (make_available r e.signal.id).0 in
    (
      stays-visible r' ids e.signal.id
          (make_available-visible r e.signal.id e.signal.id (inr refl)),
      All-visible r' es,
    )

-- Whatever the other end knows already, every signal of this end is shown there once the
-- announcement has been received.
pub announce-visible :
    (c : Local) (r : Remote)
    → All (λ e. visible (receive_messages r (announce c).1).0 e.signal.id ≡ true) c.signals
unfolding announce receive_messages receive_message
announce-visible c r = go c.signals
  where
    go :
        (es : List RegisteredLocalSignal)
        → All
            (λ e.
              visible
                (receive_messages r
                  (elim (map (λ (e : RegisteredLocalSignal). e.signal.id) es)
                    as (λ _. List Outgoing) [
                      | [] ↦ []
                      | id ∷ rest ↦ record { signo = 0; message = available (id ∷ rest) } ∷ []
                    ])).0
                e.signal.id
              ≡ true)
            es
    go [] = tt
    go (e ∷ es) = All-visible r (e ∷ es)
