-- ===== src/Connection/Handlers/Closing.antt =====
-- `connection::on_peer_closed` of src/connection.cpp withdraws the signals that are shown, each once.
use Prim.Native.String.{String}
use ws_streaming.Prelude.{
  ℕ, ◌≡◌, refl, ap, ◌∙◌, subst, List, [], ◌∷◌, ◌++◌, append_assoc, map, Bool, false, none, some,
  arith, Bool-cases, inl, inr,
}
use ws_streaming.Signals.Ids.{same_id, same_id_iff}
use ws_streaming.Signals.RemoteContainer
use ws_streaming.Signals.RemoteContainer.{Entry, find_id, shown}
use ws_streaming.Signals.RemoteSignal
use ws_streaming.Signals.RemoteSignal.{RemoteSignal}
use ws_streaming.Connection.Store.{put}
use ws_streaming.Connection.Receive.{Remote}
use ws_streaming.Connection.Handlers.{Notice, unavailable, slots, detach_all, on_peer_closed}
use ws_streaming.Connection.Handlers.Entries.{shows, OneEach}
use ws_streaming.Connection.Handlers.Visibility.{visible, track, InTurn, track-slots}

track-shown :
    (x : String) (es : List Entry)
    → OneEach es
    → track (shows (find_id x es)) x (map (λ (e : Entry). unavailable e.id) (shown es)) ≡ some false
unfolding OneEach track shown find_id shows
track-shown x [] o = refl
track-shown x (e ∷ es) (h, o) = elim (Bool-cases (same_id e.id x)) [
  | inl k ↦
      let gone : find_id x es ≡ none =
        subst (λ (z : String). find_id z es ≡ none) ((same_id_iff e.id x).0 k) h in
      ground (arith, k, gone, track-shown x es o)
  | inr k ↦ ground (arith, k, track-shown x es o)
]

track-detach_all :
    (v : Bool) (x : String) (signals : ℕ → RemoteSignal) (es : List Entry) (ns : List Notice)
    → track v x ((detach_all signals es).1 ++ ns) ≡ track v x ns
unfolding detach_all
track-detach_all v x signals [] ns = refl
track-detach_all v x signals (e ∷ es) ns =
    let (s, events) = RemoteSignal.detach (signals e.address) in
    let rest = (detach_all (put signals e.address s) es).1 in
    ap (track v x) (append_assoc (slots e.address events) rest ns)
    ∙ track-slots v x e.address events (rest ++ ns)
    ∙ track-detach_all v x (put signals e.address s) es ns

pub on_peer_closed-InTurn :
    (r : Remote) → OneEach r.container.by_id → InTurn r (on_peer_closed r).0 (on_peer_closed r).1
unfolding on_peer_closed RemoteContainer.clear_remote_signals OneEach find_id visible shows
on_peer_closed-InTurn r o = record {
  one_each = tt;
  in_turn = λ x.
      track-detach_all (visible r x) x r.signals r.container.by_id
        (map (λ (e : Entry). unavailable e.id) (shown r.container.by_id))
      ∙ track-shown x r.container.by_id o;
}
