-- ===== src/Examples/Tls.antt =====
-- Concrete runs of a TLS peer.
use ws_streaming.Prelude.{ℕ, ◌≡◌, ◌≤◌, refl, ap, List, [], ◌∷◌, ◌++◌, true, false, arith, length}
use ws_streaming.Peer.Effects.{success}
use ws_streaming.Peer.Base.{base_peer}
use ws_streaming.Peer.Tls.{Message, PeerTls, peer_tls, write, finish_write}
use ws_streaming.Peer.Tls.Order.State.{queued, IsCompletion}
use ws_streaming.Peer.Tls.Order.{Reach, start, writes, completes, sent-queued, sent_whole}

abbrev fresh : PeerTls ℕ
fresh = peer_tls true 64 64

-- Two messages are written, of which the first is then taken.
abbrev two_written : PeerTls ℕ
two_written = write (write fresh (1 ∷ 2 ∷ []) false) (3 ∷ []) false

two_written-reached : Reach fresh two_written (([] ++ (1 ∷ 2 ∷ [])) ++ (3 ∷ []))
two_written-reached =
    writes (write fresh (1 ∷ 2 ∷ []) false) ([] ++ (1 ∷ 2 ∷ [])) (3 ∷ []) false
      (writes fresh [] (1 ∷ 2 ∷ []) false start)

front : List Message → ℕ
front [] = 0
front (m ∷ ms) = length m.bytes

first_completes : IsCompletion two_written success 2
unfolding write peer_tls base_peer front
first_completes = record { in_flight = refl; whole = λ m ms e h. omega (arith, ap front e) }

one_taken : PeerTls ℕ
one_taken = finish_write two_written success 2

one_taken-reached : Reach fresh one_taken (1 ∷ 2 ∷ 3 ∷ [])
unfolding one_taken
one_taken-reached =
    completes two_written (1 ∷ 2 ∷ 3 ∷ []) success 2 two_written-reached first_completes

one_taken_open : one_taken.is_closed ≡ false
unfolding one_taken write peer_tls finish_write base_peer
one_taken_open = refl

sent-queued_example :
    ((1 ∷ 2 ∷ 3 ∷ []) ≡ one_taken.sent ++ queued one_taken.tx_queue)
    × (one_taken.tx_queued_bytes ≡ length (queued one_taken.tx_queue))
    × (one_taken.tx_queued_bytes ≤ one_taken.tx_buffer_limit)
sent-queued_example =
    sent-queued true 64 64 one_taken (1 ∷ 2 ∷ 3 ∷ []) one_taken-reached one_taken_open

second_completes : IsCompletion one_taken success 1
unfolding write peer_tls finish_write one_taken base_peer front
second_completes = record { in_flight = refl; whole = λ m ms e h. omega (arith, ap front e) }

all_taken : PeerTls ℕ
all_taken = finish_write one_taken success 1

all_taken-reached : Reach fresh all_taken (1 ∷ 2 ∷ 3 ∷ [])
unfolding all_taken
all_taken-reached =
    completes one_taken (1 ∷ 2 ∷ 3 ∷ []) success 1 one_taken-reached second_completes

all_taken_open : all_taken.is_closed ≡ false
unfolding all_taken one_taken write peer_tls finish_write base_peer
all_taken_open = refl

all_taken_idle : all_taken.write_in_flight ≡ false
unfolding all_taken one_taken write peer_tls finish_write base_peer
all_taken_idle = refl

sent_whole_example : (1 ∷ 2 ∷ 3 ∷ []) ≡ all_taken.sent
sent_whole_example =
    sent_whole true 64 64 all_taken (1 ∷ 2 ∷ 3 ∷ []) all_taken-reached all_taken_open all_taken_idle
