-- ===== src/Connection/Handlers/Turns.antt =====
-- Runs of the handlers of src/connection.cpp for the messages about signals, in every order.
use Prim.Native.String.{String}
use ws_streaming.Prelude.{ℕ, ◌≡◌, some, refl, List, [], ◌∷◌, ◌++◌}
use ws_streaming.Connection.Receive.{Remote}
use ws_streaming.Connection.Handlers.{
  Notice, make_available, make_unavailable, handle_available, handle_unavailable, handle_subscribe,
  handle_unsubscribe, on_peer_closed,
}
use ws_streaming.Connection.Handlers.Entries.{OneEach}
use ws_streaming.Connection.Handlers.Closing.{on_peer_closed-InTurn}
use ws_streaming.Connection.Handlers.Visibility.{
  track, InTurn, make_available-InTurn, make_unavailable-InTurn, handle_subscribe-InTurn,
  handle_unsubscribe-InTurn, then-InTurn,
}

-- A run of the handlers, with what the application is told on the way. A signal is unsubscribed by
-- a number only where the pointer of the number is to an entry that is there.
pub data Runs (r : Remote) : Remote → List Notice → Type 0 where
  start : Runs r r []
  availables :
      (s : Remote) (ns : List Notice) (ids : List String)
      → Runs r s ns
      → Runs r (handle_available s ids).0 (ns ++ (handle_available s ids).1)
  unavailables :
      (s : Remote) (ns : List Notice) (ids : List String)
      → Runs r s ns
      → Runs r (handle_unavailable s ids).0 (ns ++ (handle_unavailable s ids).1)
  subscribes :
      (s : Remote) (ns : List Notice) (signo : ℕ) (id : String)
      → Runs r s ns
      → Runs r (handle_subscribe s signo id).0 (ns ++ (handle_subscribe s signo id).1)
  unsubscribes :
      (s t : Remote) (ns more : List Notice) (signo : ℕ)
      → handle_unsubscribe s signo ≡ some (t, more)
      → Runs r s ns
      → Runs r t (ns ++ more)
  closes :
      (s : Remote) (ns : List Notice)
      → Runs r s ns
      → Runs r (on_peer_closed s).0 (ns ++ (on_peer_closed s).1)

nothing-InTurn : (r : Remote) → OneEach r.container.by_id → InTurn r r []
unfolding track
nothing-InTurn r o = record { one_each = o; in_turn = λ x. refl }

handle_available-InTurn :
    (r : Remote) (ids : List String)
    → OneEach r.container.by_id
    → InTurn r (handle_available r ids).0 (handle_available r ids).1
unfolding handle_available
handle_available-InTurn r [] o = nothing-InTurn r o
handle_available-InTurn r (id ∷ ids) o =
    let (s, ns) = make_available r id in
    let first = make_available-InTurn r id o in
    then-InTurn r s (handle_available s ids).0 ns (handle_available s ids).1 first
      (handle_available-InTurn s ids first.one_each)

handle_unavailable-InTurn :
    (r : Remote) (ids : List String)
    → OneEach r.container.by_id
    → InTurn r (handle_unavailable r ids).0 (handle_unavailable r ids).1
unfolding handle_unavailable
handle_unavailable-InTurn r [] o = nothing-InTurn r o
handle_unavailable-InTurn r (id ∷ ids) o =
    let (s, ns) = make_unavailable r id in
    let first = make_unavailable-InTurn r id o in
    then-InTurn r s (handle_unavailable s ids).0 ns (handle_unavailable s ids).1 first
      (handle_unavailable-InTurn s ids first.one_each)

-- Where each id has one entry, any run of the handlers for available, unavailable, subscribed and
-- unsubscribed signals and of the closing, in which a number is unsubscribed only where its
-- pointer, if there is one, is to an entry that is still there (elsewhere the code is undefined),
-- keeps that, and shows every signal to the application and withdraws it in turn: what the
-- notices say of a signal is whether it has an entry that is not hidden.
pub run-InTurn :
    (r s : Remote) (ns : List Notice) → OneEach r.container.by_id → Runs r s ns → InTurn r s ns
run-InTurn r _ _ o start = nothing-InTurn r o
run-InTurn r _ _ o (availables s ns ids run) =
    let before = run-InTurn r s ns o run in
    then-InTurn r s _ ns _ before (handle_available-InTurn s ids before.one_each)
run-InTurn r _ _ o (unavailables s ns ids run) =
    let before = run-InTurn r s ns o run in
    then-InTurn r s _ ns _ before (handle_unavailable-InTurn s ids before.one_each)
run-InTurn r _ _ o (subscribes s ns signo id run) =
    let before = run-InTurn r s ns o run in
    then-InTurn r s _ ns _ before (handle_subscribe-InTurn s signo id before.one_each)
run-InTurn r _ _ o (unsubscribes s t ns more signo e run) =
    let before = run-InTurn r s ns o run in
    then-InTurn r s t ns more before (handle_unsubscribe-InTurn s t signo more before.one_each e)
run-InTurn r _ _ o (closes s ns run) =
    let before = run-InTurn r s ns o run in
    then-InTurn r s _ ns _ before (on_peer_closed-InTurn s before.one_each)
