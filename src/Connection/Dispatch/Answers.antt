-- ===== src/Connection/Dispatch/Answers.antt =====
-- The answers to all messages that a connection receives, src/connection.cpp and
-- src/detail/remote_signal_impl.cpp.
use Prim.Native.String.{String}
use ws_streaming.Prelude.{ℕ, Bool, false, not, none, some}
use ws_streaming.Signals.RemoteContainer
use ws_streaming.Connection.Handlers.{stands}
use ws_streaming.Connection.Dispatch.{Session}
use ws_streaming.Connection.Dispatch.Rejects.{is_none}

-- A pointer behind the number, and one to an entry that has been erased.
unfoldable pub known : {Json : Type 0} → Session Json → ℕ → Bool
unfolding is_none
known s signo = not (is_none (RemoteContainer.find_remote_signal s.remote.container signo))

unfoldable pub dangling : {Json : Type 0} → Session Json → ℕ → Bool
unfolding stands
dangling s signo = elim (RemoteContainer.find_remote_signal s.remote.container signo) [
  | none ↦ false
  | some address ↦ not (stands address s.remote.container.by_id)
]
