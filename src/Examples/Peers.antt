-- ===== src/Examples/Peers.antt =====
-- A peer on streams of a few bytes.
use ws_streaming.Prelude.{
  ℕ, ◌≡◌, ◌≤◌, ◌<◌, ◌⊎◌, refl, List, [], ◌∷◌, ◌++◌, true, false, some, arith, length, if◌then◌else◌,
}
use ws_streaming.Buffer
use ws_streaming.Buffer.Memory.{flat}
use ws_streaming.Buffer.Invariant.{contents}
use ws_streaming.Wire.Streaming
use ws_streaming.Peer.Effects.{Effect, data_received, read, close, success, no_buffer_space}
use ws_streaming.Peer.Base.{BasePeer, base_peer, run_with, process_buffer_tcp}
use ws_streaming.Peer.Base.Packets.{TakenApart, receive, receive-append, receive-data}
use ws_streaming.Peer.Base.Frames.{receive_frames, resume, receive_frames-append}
use ws_streaming.Peer.Base.Room.{
  IsValid, HasSpace, base_peer-IsValid, run_with-fits, process_buffer_tcp_lem,
}
use ws_streaming.Peer.Tcp.{Peer, Answer, peer, write, enqueue, finish_wait_tx}
use ws_streaming.Peer.Tcp.Order.State.{IsAnswer}
use ws_streaming.Peer.Tcp.Order.{Reach, start, writes, ready, sent-contents, sent_all}
use ws_streaming.Peer.Tcp.Closing.{on_closed_once}
use ws_streaming.Examples.Libraries.{copier, plain}

-- A data packet of signal 7 with the bytes 1, 2 and 3.
abbrev header : List ℕ
header = 7 ∷ 0 ∷ 48 ∷ 16 ∷ []

abbrev payload : List ℕ
payload = 1 ∷ 2 ∷ 3 ∷ []

header_generated : Streaming.generate_header 7 1 3 ≡ some header
unfolding Streaming.generate_header
header_generated = refl

receive-data_example :
    receive plain true (header ++ (payload ++ (9 ∷ [])))
    ≡ (data_received 7 payload ∷ (receive plain true (9 ∷ [])).0, (receive plain true (9 ∷ [])).1)
receive-data_example =
    receive-data plain true 7 payload (9 ∷ []) header
      (record { signo_fits = omega arith; some_bytes = omega arith; size_fits = omega arith })
      header_generated

receive-append_example :
    let (e1, r1) = receive plain true (header ++ (1 ∷ [])) in
    let (e2, r2) = receive plain true (r1 ++ (2 ∷ 3 ∷ 9 ∷ [])) in
    receive plain true ((header ++ (1 ∷ [])) ++ (2 ∷ 3 ∷ 9 ∷ [])) ≡ (e1 ++ e2, r2)
receive-append_example = receive-append plain true (header ++ (1 ∷ [])) (2 ∷ 3 ∷ 9 ∷ [])

-- A masked ping, cut in its payload.
abbrev ping_start : List ℕ
ping_start = 137 ∷ 130 ∷ 1 ∷ 2 ∷ 3 ∷ 4 ∷ 5 ∷ []

receive_frames-append_example :
    receive_frames plain false (ping_start ++ (6 ∷ []))
    ≡ resume plain false
        (receive_frames plain false ping_start)
        (6 ∷ [])
        (receive_frames plain false)
receive_frames-append_example = receive_frames-append plain false ping_start (6 ∷ [])

abbrev small : BasePeer
small = base_peer true 16

small-IsValid : IsValid small
small-IsValid = base_peer-IsValid true 16 (omega arith)

small_limit : 14 ≤ small.rx_max
unfolding base_peer
small_limit = omega arith

abbrev tiny : BasePeer
tiny = base_peer true 2

tiny_limit : tiny.rx_max < 3
unfolding base_peer
tiny_limit = omega arith

-- Two packets in the buffer.
abbrev two_packets : List ℕ
two_packets = header ++ (payload ++ (header ++ payload))

abbrev loaded : BasePeer
loaded = (run_with small two_packets).0

loaded-IsValid : IsValid loaded
loaded-IsValid = (run_with-fits small two_packets small-IsValid small_limit).0

process_buffer_tcp_lem_example :
    let (p', all) = process_buffer_tcp plain loaded in
    IsValid p'
    × ((effects : List (Effect (List ℕ))) × TakenApart plain loaded.use_tcp_protocol loaded.rx_bytes
          effects p'.rx_bytes
        × ((all ≡ effects ++ (read ∷ [])) × HasSpace p'
            ⊎ (all ≡ effects ++ (close no_buffer_space ∷ []))
              × (length p'.rx_bytes ≡ loaded.rx_max)))
process_buffer_tcp_lem_example = process_buffer_tcp_lem plain loaded loaded-IsValid

-- Five bytes are written, of which the socket takes two at once and the others later.
abbrev p0 : Peer (List ℕ)
p0 = peer true 16 8

abbrev five : List ℕ
five = 1 ∷ 2 ∷ 3 ∷ 4 ∷ 5 ∷ []

abbrev takes : ℕ → Answer
takes n = record { bytes_sent = n; code = success }

abbrev p1 : Peer (List ℕ)
p1 = write copier p0 five false (takes 2)

abbrev p2 : Peer (List ℕ)
p2 = finish_wait_tx p1 success (takes 3)

takes-IsAnswer :
    (p : Peer (List ℕ)) (offered : List ℕ) (n : ℕ)
    → n ≤ length offered
    → p.is_closed ≡ false
    → IsAnswer p offered (takes n)
takes-IsAnswer p offered n h o = record { partial = h; none_on_error = λ e. cc; refused = λ e. cc }

open0 : p0.is_closed ≡ false
unfolding peer base_peer
open0 = refl

reach1 : Reach copier p0 p1 five
reach1 = writes p0 [] five false (takes 2) start (takes-IsAnswer p0 five 2 (omega arith) open0)

open1 : p1.is_closed ≡ false
unfolding peer base_peer write enqueue Buffer.write Buffer.dynamic_buffer
open1 = refl

offered1 : length (flat (Buffer.buffers p1.tx_buffer)) ≡ 3
unfolding peer write enqueue Buffer.write Buffer.buffers Buffer.dynamic_buffer
offered1 = refl

reach2 : Reach copier p0 p2 five
reach2 =
    ready p1 five success (takes 3) reach1
      (takes-IsAnswer p1 (flat (Buffer.buffers p1.tx_buffer)) 3 (omega (arith, offered1)) open1)

open2 : p2.is_closed ≡ false
unfolding peer base_peer write finish_wait_tx enqueue Buffer.write Buffer.buffers Buffer.consume
    Buffer.empty Buffer.dynamic_buffer
open2 = refl

idle2 : p2.waiting_tx ≡ false
unfolding peer base_peer write finish_wait_tx enqueue Buffer.write Buffer.buffers Buffer.consume
    Buffer.empty Buffer.dynamic_buffer
idle2 = refl

sent-contents_example : five ≡ p1.sent ++ contents p1.tx_buffer
sent-contents_example = sent-contents copier true 16 8 p1 five reach1 open1

sent_all_example : five ≡ p2.sent
sent_all_example = sent_all copier true 16 8 p2 five reach2 open2 idle2

on_closed_once_example : length p2.closed ≡ (if p2.is_closed then 1 else 0)
on_closed_once_example = on_closed_once copier true 16 8 p2 five reach2
