-- ===== src/Peer/Tcp.antt =====
-- src/detail/peer.cpp and include/ws-streaming/detail/peer.hpp: a peer on a plain TCP socket.
-- The socket is not part of the repository: each call of `send` or `receive` is answered by the
-- environment, with a number of bytes and an error code. Boost.Signals2 slots are outside: what
-- they are given is logged.
pub mod Order
pub mod Closing
use Prim.Native.String.{String}
use ws_streaming.Prelude.{
  ℕ, zero, suc, ◌+◌, ◌-◌, ◌*◌, ◌≤◌, ◌≡◌, List, [], ◌∷◌, ◌++◌, Bool, true, false, ◌&&◌, not, Option,
  none, some, ltb, ◌==◌, if◌then◌else◌, length, take, drop,
}
use ws_streaming.Prelude.Words.{le_bytes}
use ws_streaming.Wire.Streaming
use ws_streaming.Wire.Streaming.Codes
use ws_streaming.Wire.WebSocket
use ws_streaming.Wire.WebSocket.Opcodes
use ws_streaming.Buffer
use ws_streaming.Buffer.{DynamicBuffer}
use ws_streaming.Buffer.Copy.{BufferCopy}
use ws_streaming.Buffer.Memory.{flat}
use ws_streaming.Peer.Json.{JsonLib}
use ws_streaming.Peer.Effects.{
  ErrorCode, is_error, success, would_block, no_buffer_space, Effect, data_received,
  metadata_received, control_frame,
}
use ws_streaming.Peer.Effects
use ws_streaming.Peer.Base.{BasePeer, base_peer, process_buffer}

-- `sent` are the bytes that the socket has taken, `closed` the codes given to `on_closed`,
-- `received` what the other signals were given, and `reading` whether a read wait was started last.
pub record Peer (Json : Type 0) : Type 0 where
  pub base : BasePeer
  pub open base use {is_closed, use_tcp_protocol, rx_bytes}
  pub tx_buffer : DynamicBuffer
  pub waiting_tx : Bool
  pub shutdown_when_empty : Bool
  pub sent : List ℕ
  pub closed : List ErrorCode
  pub received : List (Effect Json)
  pub reading : Bool

-- The socket's answer to a call of `send`.
pub record Answer : Type 0 where
  pub bytes_sent : ℕ
  pub code : ErrorCode

-- `ec && ec != would_block`
abbrev pub is_genuine : ErrorCode → Bool
is_genuine would_block = false
is_genuine ec = is_error ec

-- The next answer; a socket that is asked again takes nothing for now.
abbrev pub next_answer : List Answer → Answer × List Answer
next_answer [] = (record { bytes_sent = 0; code = would_block }, [])
next_answer (a ∷ rest) = (a, rest)

module _ {Json : Type 0} where
  unfoldable pub peer : Bool → ℕ → ℕ → Peer Json
  peer use_tcp_protocol rx_buffer_size tx_buffer_size = record {
    base = base_peer use_tcp_protocol rx_buffer_size;
    tx_buffer = Buffer.dynamic_buffer tx_buffer_size (64 * 1024);
    waiting_tx = false;
    shutdown_when_empty = false;
    sent = [];
    closed = [];
    received = [];
    reading = false;
  }

  -- `base_peer::close`, with `shutdown_and_close` of the socket.
  unfoldable pub close : Peer Json → ErrorCode → Peer Json
  close p ec =
      if p.is_closed
      then p
      else record p { base = record p.base { is_closed = true }; closed = p.closed ++ (ec ∷ []) }

  do_wait_tx : Peer Json → Peer Json
  do_wait_tx p = record p { waiting_tx = true }

  -- The completion of a write wait, with its code and the answer to `send`.
  unfoldable pub finish_wait_tx : Peer Json → ErrorCode → Answer → Peer Json
  unfolding do_wait_tx
  finish_wait_tx p wait_code answer =
      let p' : Peer Json = record p { waiting_tx = false } in
      let offered = flat (Buffer.buffers p.tx_buffer) in
      let q : Peer Json = record p' { sent = p.sent ++ take answer.bytes_sent offered } in
      let r : Peer Json = record q { tx_buffer = Buffer.consume p.tx_buffer answer.bytes_sent } in
      if is_error wait_code
      then close p' wait_code
      else if is_genuine answer.code
      then close q answer.code
      else if r.shutdown_when_empty && Buffer.empty r.tx_buffer
      then close r success
      else if not (Buffer.empty r.tx_buffer)
      then do_wait_tx r
      else r

module _ (copy : BufferCopy) {Json : Type 0} where
  unfoldable pub enqueue : Peer Json → List ℕ → Bool → Peer Json
  unfolding do_wait_tx
  enqueue p bytes do_shutdown_after =
      let (tx_buffer', taken) = Buffer.write copy p.tx_buffer bytes in
      let q : Peer Json = record p { tx_buffer = tx_buffer' } in
      let r : Peer Json = record q {
        shutdown_when_empty = if do_shutdown_after then true else p.shutdown_when_empty;
      } in
      if ltb taken (length bytes)
      then close q no_buffer_space
      else if p.waiting_tx
      then r
      else do_wait_tx r

  -- `write`, with the answer to its call of `send` if it makes one.
  unfoldable pub write : Peer Json → List ℕ → Bool → Answer → Peer Json
  write p bytes do_shutdown_after answer =
      let q : Peer Json = record p { sent = p.sent ++ take answer.bytes_sent bytes } in
      if p.waiting_tx
      then enqueue p bytes do_shutdown_after
      else if is_genuine answer.code
      then close q answer.code
      else if answer.bytes_sent == length bytes
      then (if do_shutdown_after then close q success else q)
      else enqueue q (drop answer.bytes_sent bytes) do_shutdown_after

  unfoldable pub send_websocket_frame : Peer Json → ℕ → List ℕ → Bool → Answer → Peer Json
  send_websocket_frame p opcode payload do_shutdown_after answer =
      write p (WebSocket.generate_header opcode WebSocket.fin (length payload) ++ payload)
        do_shutdown_after answer

  -- `none` where `generate_header` throws.
  unfoldable pub send_packet : Peer Json → ℕ → ℕ → List ℕ → Answer → Option (Peer Json)
  send_packet p signo type payload answer =
      elim (Streaming.generate_header signo type (length payload)) [
        | none ↦ none
        | some header ↦ some (
            if p.use_tcp_protocol
            then write p (header ++ payload) false answer
            else send_websocket_frame p Opcodes.binary (header ++ payload) false answer)
      ]

  unfoldable pub send_data : Peer Json → ℕ → List ℕ → Answer → Option (Peer Json)
  send_data p signo bytes answer = send_packet p signo Codes.data_packet bytes answer

  -- `send_control_frame` and the other effects of the shared part.
  perform : Peer Json → Effect Json → Answer → Peer Json
  perform p (data_received signo bytes) answer = record p {
    received = p.received ++ (data_received signo bytes ∷ []);
  }
  perform p (metadata_received signo method params) answer = record p {
    received = p.received ++ (metadata_received signo method params ∷ []);
  }
  perform p (control_frame opcode payload shutdown_after) answer =
      send_websocket_frame p opcode payload shutdown_after answer
  perform p (Effects.close ec) answer = close p ec
  perform p Effects.read answer = record p { reading = true }

  perform_all : Peer Json → List (Effect Json) → List Answer → Peer Json
  perform_all p [] answers = p
  perform_all p (effect ∷ effects) answers =
      let (answer, rest) = next_answer answers in perform_all (perform p effect answer) effects rest

module _ (copy : BufferCopy) (lib : JsonLib) where
  -- The encoding word is stored in the order of the host, which is little-endian.
  unfoldable pub send_metadata :
      Peer lib.Json → ℕ → String → lib.Json → Answer → Option (Peer lib.Json)
  send_metadata p signo method params answer =
      send_packet copy p signo Codes.metadata_packet
        (le_bytes Codes.msgpack ++ lib.to_msgpack (lib.method_object method params)) answer

  -- The completion of a read wait: `bytes` and `code` are what `receive` returns. The effects of
  -- the bytes are carried out in order, each call of `send` with an answer of its own.
  unfoldable pub finish_wait_rx :
      Peer lib.Json → ErrorCode → List ℕ → ErrorCode → List Answer → Peer lib.Json
  unfolding perform_all perform
  finish_wait_rx p wait_code bytes code answers =
      let p' : Peer lib.Json = record p { reading = false } in
      let (base', effects) =
        process_buffer lib (record p.base { rx_bytes = p.rx_bytes ++ bytes }) in
      if is_error wait_code
      then close p' wait_code
      else if length bytes == 0
      then close p' success
      else if is_genuine code
      then close p' code
      else perform_all copy (record p' { base = base' }) effects answers
