-- ===== src/Connection/Handlers/Visibility.antt =====
-- What the application is told of the signals of the other end: each is shown and withdrawn in turn.
use Prim.Native.String.{String}
use ws_streaming.Prelude.{
  ℕ, ◌≡◌, refl, sym, ap, ◌∙◌, subst, List, [], ◌∷◌, ◌++◌, Bool, true, false, Option, none, some,
  not, if◌then◌else◌, arith, Bool-cases, Option-cases, some-injective, inl, inr,
}
use ws_streaming.Signals.Ids.{same_id, same_id_iff, is_empty}
use ws_streaming.Signals.RemoteContainer
use ws_streaming.Signals.RemoteContainer.{Entry, find_id, erase_id, assign_signo}
use ws_streaming.Signals.RemoteSignal
use ws_streaming.Signals.RemoteSignal.{RemoteSignal, remote_signal_impl}
use ws_streaming.Signals.Metadata
use ws_streaming.Connection.Store.{put}
use ws_streaming.Connection.Receive.{Remote}
use ws_streaming.Connection.Handlers.{
  Notice, available, unavailable, slot, slots, unhide, add_signal, make_available, make_unavailable,
  handle_subscribe, handle_unsubscribe, unsubscribe_at, stands,
}
use ws_streaming.Connection.Handlers.Entries.{
  shows, OneEach, find_id-append, find_id-append_old, same_id_refl, shows-unhide, shows-unhide_same,
  find_id-erase, find_id-erase_same, shows-assign_signo, shows-append_hidden, unhide-OneEach,
  assign_signo-OneEach, erase_id-OneEach, append-OneEach,
}

unfoldable pub visible : Remote → String → Bool
visible r id = shows (find_id id r.container.by_id)

-- Whether a signal is shown after some notices; `none` where one of them comes out of turn.
unfoldable pub track : Bool → String → List Notice → Option Bool
track shown id [] = some shown
track shown id (slot address event ∷ ns) = track shown id ns
track shown id (available x ∷ ns) =
    let on = track true id ns in
    let off = track shown id ns in if same_id x id then (if shown then none else on) else off
track shown id (unavailable x ∷ ns) =
    let on = track false id ns in
    let off = track shown id ns in if same_id x id then (if shown then on else none) else off

pub track-slots :
    (shown : Bool) (x : String) (address : ℕ) (events : List RemoteSignal.Event) (ns : List Notice)
    → track shown x (slots address events ++ ns) ≡ track shown x ns
unfolding track slots
track-slots shown x address [] ns = refl
track-slots shown x address (e ∷ es) ns = track-slots shown x address es ns

-- Every signal is shown and withdrawn in turn, and each id keeps one entry.
pub record InTurn (r r' : Remote) (notices : List Notice) : Type 0 where
  pub one_each : OneEach r'.container.by_id
  pub in_turn : (x : String) → track (visible r x) x notices ≡ some (visible r' x)

track-available :
    (es es' : List Entry) (id : String) (e : Entry)
    → find_id id es' ≡ some e
    → ((x : String) → same_id id x ≡ false → find_id x es' ≡ find_id x es)
    → shows (find_id id es) ≡ false
    → (x : String)
    → track (shows (find_id x es)) x (available id ∷ []) ≡ some (shows (find_id x (unhide id es')))
unfolding track
track-available es es' id e f other off x = elim (Bool-cases (same_id id x)) [
  | inl h ↦
      subst
        (λ (z : String).
          track (shows (find_id z es)) z (available id ∷ [])
          ≡ some (shows (find_id z (unhide id es'))))
        ((same_id_iff id x).0 h) (rw (same_id_refl id, off, shows-unhide_same id es' e f) refl)
  | inr h ↦ rw (h, shows-unhide x id es' h, other x h) refl
]

track-unavailable :
    (es : List Entry) (id : String) (shown : Bool)
    → OneEach es
    → shows (find_id id es) ≡ shown
    → (x : String)
    → track (shows (find_id x es)) x (if shown then unavailable id ∷ [] else [])
      ≡ some (shows (find_id x (erase_id id es)))
unfolding track shows
track-unavailable es id shown o on x = elim (Bool-cases (same_id id x)) [
  | inl h ↦
      subst
        (λ (z : String).
          track (shows (find_id z es)) z (if shown then unavailable id ∷ [] else [])
          ≡ some (shows (find_id z (erase_id id es))))
        ((same_id_iff id x).0 h) (rw (on, find_id-erase_same id es o) (at_id shown))
  | inr h ↦ rw (find_id-erase x id es h) (elsewhere shown (shows (find_id x es)) h)
]
  where
    at_id : (shown : Bool) → track shown id (if shown then unavailable id ∷ [] else []) ≡ some false
    at_id true = rw (same_id_refl id) refl
    at_id false = refl

    elsewhere :
        (shown v : Bool)
        → same_id id x ≡ false
        → track v x (if shown then unavailable id ∷ [] else []) ≡ some v
    elsewhere true v h = rw h refl
    elsewhere false v h = refl

pub make_available-InTurn :
    (r : Remote) (id : String)
    → OneEach r.container.by_id
    → let (r', notices) = make_available r id in InTurn r r' notices
unfolding make_available add_signal RemoteContainer.add_remote_signal visible track shows
make_available-InTurn r id o =
    let es = r.container.by_id in
    elim (Option-cases (find_id id es)) [
      | inl n ↦
          let new : Entry = record {
            id = id;
            hidden = false;
            signo = 0;
            address = r.container.next_address;
          } in
          let added = es ++ (new ∷ []) in
          let there : find_id id added ≡ some new =
            find_id-append id es new n
            ∙ ap (λ (b : Bool). if b then some new else none) (same_id_refl id) in
          simp (n, make_available, add_signal, RemoteContainer.add_remote_signal)
            (record {
              one_each = unhide-OneEach id added (append-OneEach es new n o);
              in_turn =
                  track-available es added id new there (λ x h. find_id-append_old x es new h)
                    (ap shows n);
            })
      | inr (e, f) ↦ elim (Bool-cases e.hidden) [
        | inl h ↦
            simp (f, h, make_available, add_signal, RemoteContainer.add_remote_signal)
              (record {
                one_each = unhide-OneEach id es o;
                in_turn = track-available es es id e f (λ x _. refl) (ap shows f ∙ ap not h);
              })
        | inr h ↦
            simp (f, h, make_available, add_signal, RemoteContainer.add_remote_signal)
              (record { one_each = o; in_turn = λ x. refl })
      ]
    ]

pub make_unavailable-InTurn :
    (r : Remote) (id : String)
    → OneEach r.container.by_id
    → let (r', notices) = make_unavailable r id in InTurn r r' notices
unfolding make_unavailable RemoteContainer.remove_remote_signal visible track shows
make_unavailable-InTurn r id o =
    let es = r.container.by_id in
    elim (Option-cases (find_id id es)) [
      | inl n ↦
          simp (n, make_unavailable, RemoteContainer.remove_remote_signal)
            (record { one_each = o; in_turn = λ x. refl })
      | inr (e, f) ↦
          simp (f, make_unavailable, RemoteContainer.remove_remote_signal)
            (record {
              one_each = erase_id-OneEach id es o;
              in_turn = λ x.
                  track-slots (shows (find_id x es)) x e.address
                    (RemoteSignal.detach (r.signals e.address)).1
                    (if not e.hidden then unavailable id ∷ [] else [])
                  ∙ track-unavailable es id (not e.hidden) o (ap shows f) x;
            })
    ]

track-slots_only :
    (shown : Bool) (x : String) (address : ℕ) (events : List RemoteSignal.Event)
    → track shown x (slots address events) ≡ some shown
unfolding track slots
track-slots_only shown x address [] = refl
track-slots_only shown x address (e ∷ es) = track-slots_only shown x address es

pub handle_subscribe-InTurn :
    (r : Remote) (signo : ℕ) (id : String)
    → OneEach r.container.by_id
    → let (r', notices) = handle_subscribe r signo id in InTurn r r' notices
unfolding handle_subscribe add_signal RemoteContainer.add_remote_signal
    RemoteContainer.set_remote_signal_signo visible track
handle_subscribe-InTurn r signo id o =
    let es = r.container.by_id in
    elim (Bool-cases (is_empty id)) [
      | inl h ↦ simp (h, handle_subscribe) (record { one_each = o; in_turn = λ x. refl })
      | inr h ↦ elim (Option-cases (find_id id es)) [
        | inl n ↦
            let new : Entry = record {
              id = id;
              hidden = true;
              signo = 0;
              address = r.container.next_address;
            } in
            let fresh = put r.signals new.address (remote_signal_impl Metadata.empty) in
            let events =
              (RemoteSignal.handle_subscribe
                (RemoteSignal.set_signo (fresh new.address) signo)).1 in
            simp (h, n, handle_subscribe, add_signal, RemoteContainer.add_remote_signal)
              (record {
                one_each =
                    assign_signo-OneEach new.address signo (es ++ (new ∷ []))
                      (append-OneEach es new n o);
                in_turn = λ x.
                    track-slots_only (shows (find_id x es)) x new.address events
                    ∙ ap some (
                        sym (
                          shows-assign_signo x new.address signo (es ++ (new ∷ []))
                          ∙ shows-append_hidden x es new refl));
              })
        | inr (e, f) ↦
            simp (h, f, handle_subscribe, add_signal, RemoteContainer.add_remote_signal)
              (record {
                one_each = assign_signo-OneEach e.address signo es o;
                in_turn = λ x.
                    track-slots_only (shows (find_id x es)) x e.address
                      (RemoteSignal.handle_subscribe
                        (RemoteSignal.set_signo (r.signals e.address) signo)).1
                    ∙ ap some (sym (shows-assign_signo x e.address signo es));
              })
      ]
    ]

unsubscribe_at-InTurn :
    (r : Remote) (signo address : ℕ)
    → OneEach r.container.by_id
    → InTurn r (unsubscribe_at r signo address).0 (unsubscribe_at r signo address).1
unfolding unsubscribe_at RemoteContainer.forget_remote_signo visible track
unsubscribe_at-InTurn r signo address o = record {
  one_each = o;
  in_turn = λ x.
      track-slots_only (shows (find_id x r.container.by_id)) x address
        (RemoteSignal.handle_unsubscribe (r.signals address)).1;
}

forgotten-InTurn :
    (r : Remote) (signo : ℕ)
    → OneEach r.container.by_id
    → InTurn r (record r { container = RemoteContainer.forget_remote_signo r.container signo }) []
unfolding RemoteContainer.forget_remote_signo visible track
forgotten-InTurn r signo o = record { one_each = o; in_turn = λ x. refl }

pub handle_unsubscribe-InTurn :
    (r r' : Remote) (signo : ℕ) (notices : List Notice)
    → OneEach r.container.by_id
    → handle_unsubscribe r signo ≡ some (r', notices)
    → InTurn r r' notices
unfolding handle_unsubscribe
handle_unsubscribe-InTurn r r' signo notices o e =
    let Goal : Option (Remote × List Notice) → Type 0 =
      λ x. elim x [ none ↦ Unit {0} | some p ↦ InTurn r p.0 p.1 ] in
    let at_all : Goal (handle_unsubscribe r signo) =
      elim (Option-cases (RemoteContainer.find_remote_signal r.container signo)) [
        | inl n ↦ rw n (forgotten-InTurn r signo o)
        | inr (address, f) ↦ elim (Bool-cases (stands address r.container.by_id)) [
          | inl s ↦ rw (f, s) (unsubscribe_at-InTurn r signo address o)
          | inr s ↦ rw (f, s) tt
        ]
      ] in
    subst Goal e at_all

track-append :
    (v w : Bool) (x : String) (ns ms : List Notice)
    → track v x ns ≡ some w
    → track v x (ns ++ ms) ≡ track w x ms
unfolding track
track-append v w x [] ms h = ap (λ (b : Bool). track b x ms) (some-injective v w h)
track-append v w x (slot address event ∷ ns) ms h = track-append v w x ns ms h
track-append true w x (available y ∷ ns) ms h = ground (arith, track-append true w x ns ms)
track-append false w x (available y ∷ ns) ms h =
    ground (arith, track-append true w x ns ms, track-append false w x ns ms)
track-append true w x (unavailable y ∷ ns) ms h =
    ground (arith, track-append true w x ns ms, track-append false w x ns ms)
track-append false w x (unavailable y ∷ ns) ms h = ground (arith, track-append false w x ns ms)

-- Two changes one after the other.
pub then-InTurn :
    (r s u : Remote) (ns ms : List Notice) → InTurn r s ns → InTurn s u ms → InTurn r u (ns ++ ms)
then-InTurn r s u ns ms a b = record {
  one_each = b.one_each;
  in_turn = λ x. track-append (visible r x) (visible s x) x ns ms (a.in_turn x) ∙ b.in_turn x;
}
