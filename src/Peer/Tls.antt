-- ===== src/Peer/Tls.antt =====
-- src/detail/peer_tls.cpp and include/ws-streaming/detail/peer_tls.hpp: a peer on a TLS stream.
-- The stream is not part of the repository: the completions of its asynchronous operations are
-- inputs. A message of the queue is a copy of its bytes.
pub mod Order
use Prim.Native.String.{String}
use ws_streaming.Prelude.{
  ℕ, ◌+◌, ◌-◌, ◌*◌, List, [], ◌∷◌, ◌++◌, Bool, true, false, not, Option, none, some, ltb, ◌==◌,
  if◌then◌else◌, length, take,
}
use ws_streaming.Prelude.Words.{le_bytes}
use ws_streaming.Wire.Streaming
use ws_streaming.Wire.Streaming.Codes
use ws_streaming.Wire.WebSocket
use ws_streaming.Wire.WebSocket.Opcodes
use ws_streaming.Peer.Json.{JsonLib}
use ws_streaming.Peer.Effects.{
  ErrorCode, is_error, success, no_buffer_space, Effect, data_received, metadata_received,
  control_frame,
}
use ws_streaming.Peer.Effects
use ws_streaming.Peer.Base.{BasePeer, base_peer, process_buffer}

-- `tx_message`
pub record Message : Type 0 where
  pub bytes : List ℕ
  pub shutdown_after : Bool

-- `sent` are the bytes that the stream has taken, `closed` the codes given to `on_closed`,
-- `received` what the other signals were given, and `reading` whether a read was started last.
pub record PeerTls (Json : Type 0) : Type 0 where
  pub base : BasePeer
  pub open base use {is_closed, use_tcp_protocol, rx_bytes}
  pub tx_queue : List Message
  pub tx_queued_bytes : ℕ
  pub tx_buffer_limit : ℕ
  pub write_in_flight : Bool
  pub sent : List ℕ
  pub closed : List ErrorCode
  pub received : List (Effect Json)
  pub reading : Bool

module _ {Json : Type 0} where
  unfoldable pub peer_tls : Bool → ℕ → ℕ → PeerTls Json
  peer_tls use_tcp_protocol rx_buffer_size tx_buffer_size = record {
    base = base_peer use_tcp_protocol rx_buffer_size;
    tx_queue = [];
    tx_queued_bytes = 0;
    tx_buffer_limit = tx_buffer_size;
    write_in_flight = false;
    sent = [];
    closed = [];
    received = [];
    reading = false;
  }

  -- `base_peer::close`, with `shutdown_and_close` of the stream.
  unfoldable pub close : PeerTls Json → ErrorCode → PeerTls Json
  close p ec =
      if p.is_closed
      then p
      else record p { base = record p.base { is_closed = true }; closed = p.closed ++ (ec ∷ []) }

  -- The write of the front message starts.
  do_write : PeerTls Json → PeerTls Json
  do_write p = record p { write_in_flight = true }

  unfoldable pub write : PeerTls Json → List ℕ → Bool → PeerTls Json
  unfolding do_write
  write p bytes do_shutdown_after =
      let message : Message = record { bytes = bytes; shutdown_after = do_shutdown_after } in
      let q : PeerTls Json = record p {
        tx_queued_bytes = p.tx_queued_bytes + length bytes;
        tx_queue = p.tx_queue ++ (message ∷ []);
      } in
      if p.is_closed
      then p
      else if ltb q.tx_buffer_limit q.tx_queued_bytes
      then close q no_buffer_space
      else if not q.write_in_flight
      then do_write q
      else q

  -- The completion of the write of the front message `entry`, with the `rest` of the queue behind it.
  finish_entry : PeerTls Json → Message → List Message → ErrorCode → ℕ → PeerTls Json
  unfolding do_write
  finish_entry p entry rest ec bytes_transferred =
      let q : PeerTls Json = record p {
        write_in_flight = false;
        sent = p.sent ++ take bytes_transferred entry.bytes;
      } in
      let r : PeerTls Json = record q {
        tx_queue = rest;
        tx_queued_bytes = p.tx_queued_bytes - length entry.bytes;
      } in
      if is_error ec
      then close q ec
      else if entry.shutdown_after
      then close r success
      else if not (length rest == 0)
      then do_write r
      else r

  -- While a write is in flight there is a front message: the first case is never reached.
  unfoldable pub finish_write : PeerTls Json → ErrorCode → ℕ → PeerTls Json
  unfolding finish_entry
  finish_write p ec bytes_transferred = elim p.tx_queue [
    | [] ↦ p
    | entry ∷ rest ↦ finish_entry p entry rest ec bytes_transferred
  ]

  unfoldable pub send_websocket_frame : PeerTls Json → ℕ → List ℕ → Bool → PeerTls Json
  send_websocket_frame p opcode payload do_shutdown_after =
      write p (WebSocket.generate_header opcode WebSocket.fin (length payload) ++ payload)
        do_shutdown_after

  -- `none` where `generate_header` throws.
  unfoldable pub send_packet : PeerTls Json → ℕ → ℕ → List ℕ → Option (PeerTls Json)
  send_packet p signo type payload = elim (Streaming.generate_header signo type (length payload)) [
    | none ↦ none
    | some header ↦ some (
        if p.use_tcp_protocol
        then write p (header ++ payload) false
        else send_websocket_frame p Opcodes.binary (header ++ payload) false)
  ]

  unfoldable pub send_data : PeerTls Json → ℕ → List ℕ → Option (PeerTls Json)
  send_data p signo bytes = send_packet p signo Codes.data_packet bytes

  -- `send_control_frame` and the other effects of the shared part.
  perform : PeerTls Json → Effect Json → PeerTls Json
  perform p (data_received signo bytes) = record p {
    received = p.received ++ (data_received signo bytes ∷ []);
  }
  perform p (metadata_received signo method params) = record p {
    received = p.received ++ (metadata_received signo method params ∷ []);
  }
  perform p (control_frame opcode payload shutdown_after) =
      send_websocket_frame p opcode payload shutdown_after
  perform p (Effects.close ec) = close p ec
  perform p Effects.read = record p { reading = true }

  perform_all : PeerTls Json → List (Effect Json) → PeerTls Json
  perform_all p [] = p
  perform_all p (effect ∷ effects) = perform_all (perform p effect) effects

module _ (lib : JsonLib) where
  -- The encoding word is stored in the order of the host, which is little-endian.
  unfoldable pub send_metadata :
      PeerTls lib.Json → ℕ → String → lib.Json → Option (PeerTls lib.Json)
  send_metadata p signo method params =
      send_packet p signo Codes.metadata_packet
        (le_bytes Codes.msgpack ++ lib.to_msgpack (lib.method_object method params))

  -- The completion of a read: `bytes` are the bytes transferred.
  unfoldable pub finish_read : PeerTls lib.Json → ErrorCode → List ℕ → PeerTls lib.Json
  unfolding perform_all perform
  finish_read p ec bytes =
      let p' : PeerTls lib.Json = record p { reading = false } in
      let (base', effects) =
        process_buffer lib (record p.base { rx_bytes = p.rx_bytes ++ bytes }) in
      if is_error ec
      then close p' ec
      else if length bytes == 0
      then close p' success
      else perform_all (record p' { base = base' }) effects
