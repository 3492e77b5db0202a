-- ===== src/Peer/Base.antt =====
-- src/detail/base_peer.cpp: the receive buffer, and the packets and frames in it. The vector
-- `_rx_buffer` is its size and its first `_rx_buffer_bytes` bytes. A loop over an offset is a loop
-- over the bytes behind it.
pub mod Packets
pub mod Frames
pub mod Room
use Prim.Native.Nat.{bit_and, bit_or, bit_xor}
use Prim.Native.String.{String}
use ws_streaming.Prelude.{
  ℕ, zero, suc, ◌+◌, ◌-◌, ◌*◌, ◌%◌, ◌^◌, List, [], ◌∷◌, ◌++◌, Bool, true, false, ◌&&◌, not, Option,
  none, some, ltb, leb, ◌==◌, if◌then◌else◌, length, take, drop, get_or, min,
}
use ws_streaming.Prelude.Words.{u32}
use ws_streaming.Wire.Streaming
use ws_streaming.Wire.Streaming.Codes
use ws_streaming.Wire.WebSocket
use ws_streaming.Wire.WebSocket.Opcodes
use ws_streaming.Peer.Json.{JsonLib}
use ws_streaming.Peer.Effects.{
  ErrorCode, is_error, success, no_buffer_space, operation_not_supported, Effect, data_received,
  metadata_received, control_frame, close, read,
}

pub record BasePeer : Type 0 where
  pub use_tcp_protocol : Bool
  pub is_closed : Bool
  pub rx_size : ℕ
  pub rx_bytes : List ℕ
  pub rx_max : ℕ

abbrev pub initial_rx_buffer_size : ℕ
initial_rx_buffer_size = 64 * 1024

unfoldable pub base_peer : Bool → ℕ → BasePeer
base_peer use_tcp_protocol rx_buffer_size = record {
  use_tcp_protocol = use_tcp_protocol;
  is_closed = false;
  rx_size = min initial_rx_buffer_size rx_buffer_size;
  rx_bytes = [];
  rx_max = rx_buffer_size;
}

-- The new state, and whether the buffer grew.
unfoldable pub grow_rx_buffer : BasePeer → BasePeer × Bool
grow_rx_buffer p =
    if leb p.rx_max p.rx_size
    then (p, false)
    else (record p { rx_size = min (p.rx_size * 2) p.rx_max }, true)

-- `while (size > _rx_buffer.size() && grow_rx_buffer());`
make_room : ℕ → ℕ → BasePeer → BasePeer
make_room zero size p = p
make_room (suc fuel) size p =
    let (p', grown) = grow_rx_buffer p in
    let rest = make_room fuel size p' in
    if ltb p.rx_size size then (if grown then rest else p) else p

-- What `run(data, size)` posts to the executor.
pub data Posted : Type 0 where
  post_close : ErrorCode → Posted
  post_process_buffer : Posted

-- The buffer grows with each round but the last, so its limit is fuel enough.
unfoldable pub run_with : BasePeer → List ℕ → BasePeer × Posted
unfolding make_room
run_with p bytes =
    let p' = make_room (suc p.rx_max) (length bytes) p in
    if ltb p'.rx_size (length bytes)
    then (p', post_close no_buffer_space)
    else (record p' { rx_bytes = bytes }, post_process_buffer)

abbrev byte_at : List ℕ → ℕ → ℕ
byte_at bytes i = get_or bytes i 0

-- The encoding word: the byte order depends on the protocol.
unfoldable pub encoding_word : Bool → List ℕ → ℕ
encoding_word use_tcp_protocol d =
    if use_tcp_protocol
    then u32 (
        bit_or (bit_or (bit_or (byte_at d 3) (byte_at d 2 * 2 ^ 8)) (byte_at d 1 * 2 ^ 16))
          (byte_at d 0 * 2 ^ 24))
    else u32 (
        bit_or (bit_or (bit_or (byte_at d 0) (byte_at d 1 * 2 ^ 8)) (byte_at d 2 * 2 ^ 16))
          (byte_at d 3 * 2 ^ 24))

-- `data[i] ^= header.masking_key[i % 4]`, from index `i` on.
unfoldable pub unmask : List ℕ → ℕ → List ℕ → List ℕ
unmask key i [] = []
unmask key i (x ∷ xs) = bit_xor x (get_or key (i % 4) 0) ∷ unmask key (i + 1) xs

module _ (lib : JsonLib) where
  open lib use {
    Json, null, array, parse, from_msgpack, is_object, is_string, contains, field, get_string,
  }

  or_null : Option Json → Json
  or_null none = null
  or_null (some j) = j

  decode_metadata : ℕ → List ℕ → Json
  unfolding or_null
  decode_metadata encoding payload =
      if encoding == Codes.json
      then or_null (parse payload)
      else if encoding == Codes.msgpack
      then or_null (from_msgpack payload)
      else null

  -- Parameters that are missing are `nlohmann::json{nullptr}`, which is an array of one null.
  unfoldable pub process_metadata_packet : Bool → ℕ → List ℕ → List (Effect Json)
  unfolding decode_metadata
  process_metadata_packet use_tcp_protocol signo bytes =
      if ltb (length bytes) 4
      then []
      else (let metadata = decode_metadata (encoding_word use_tcp_protocol bytes) (drop 4 bytes) in
          if is_object metadata && contains metadata "method" && is_string (field metadata "method")
          then metadata_received signo (get_string (field metadata "method"))
              (if contains metadata "params" then field metadata "params" else array (null ∷ []))
            ∷ []
          else [])

  -- The switch over the packet type, on the payload.
  pub handle_packet : Bool → Streaming.DecodedHeader → List ℕ → List (Effect Json)
  handle_packet use_tcp_protocol header payload =
      if header.type == Codes.data_packet
      then data_received header.signo payload ∷ []
      else if header.type == Codes.metadata_packet
      then process_metadata_packet use_tcp_protocol header.signo payload
      else []

  -- The number of bytes consumed, 0 if no packet is complete.
  unfoldable pub process_packet : Bool → List ℕ → ℕ × List (Effect Json)
  unfolding handle_packet
  process_packet use_tcp_protocol bytes =
      let header = Streaming.decode_header bytes in
      if header.header_size == 0 then (0, []) else (
        header.header_size + header.payload_size,
        handle_packet use_tcp_protocol header
            (take header.payload_size (drop header.header_size bytes)),
      )

  -- `while (true)` over `process_packet`: the effects, and the bytes that are left. Each round
  -- consumes a byte at least.
  pub process_packets : ℕ → Bool → List ℕ → List (Effect Json) × List ℕ
  process_packets zero use_tcp_protocol bytes = ([], bytes)
  process_packets (suc fuel) use_tcp_protocol bytes =
      let (consumed, effects) = process_packet use_tcp_protocol bytes in
      let (more, rest) = process_packets fuel use_tcp_protocol (drop consumed bytes) in
      if consumed == 0 then ([], bytes) else (effects ++ more, rest)

  -- The end of both loops: a full buffer grows, or the connection is closed.
  pub finish_buffer : BasePeer → BasePeer × List (Effect Json)
  finish_buffer p =
      let (p', grown) = grow_rx_buffer p in
      if length p.rx_bytes == p.rx_size
      then (if grown then (p', read ∷ []) else (p', close no_buffer_space ∷ []))
      else (p, read ∷ [])

  unfoldable pub process_buffer_tcp : BasePeer → BasePeer × List (Effect Json)
  unfolding process_packets finish_buffer
  process_buffer_tcp p =
      let (effects, rest) =
        process_packets (suc (length p.rx_bytes)) p.use_tcp_protocol p.rx_bytes in
      let (p', last) = finish_buffer (record p { rx_bytes = rest }) in (p', effects ++ last)

  -- The switch over the opcode, on the payload without its mask.
  handle_frame : Bool → ℕ → List ℕ → List (Effect Json)
  unfolding process_packets
  handle_frame use_tcp_protocol opcode payload =
      if opcode == Opcodes.close
      then control_frame Opcodes.close [] true ∷ []
      else if opcode == Opcodes.ping
      then control_frame Opcodes.pong payload false ∷ []
      else if opcode == Opcodes.binary
      then (process_packets (suc (length payload)) use_tcp_protocol payload).0
      else []

  -- The effects, and the error code that is set.
  unfoldable pub process_websocket_frame :
      Bool → WebSocket.DecodedHeader → List ℕ → List (Effect Json) × ErrorCode
  unfolding handle_frame
  process_websocket_frame use_tcp_protocol header payload =
      if bit_and header.flags WebSocket.fin == 0 then ([], operation_not_supported) else (
        handle_frame use_tcp_protocol header.opcode
            (if header.is_masked then unmask header.masking_key 0 payload else payload),
        success,
      )

  -- The loop of `process_buffer_ws`: the effects, the error that stopped it, and the bytes left.
  pub process_frames : ℕ → Bool → List ℕ → List (Effect Json) × ErrorCode × List ℕ
  process_frames zero use_tcp_protocol bytes = ([], success, bytes)
  process_frames (suc fuel) use_tcp_protocol bytes =
      let header = WebSocket.decode_header bytes in
      let size = header.header_size + header.payload_size in
      let (effects, ec) =
        process_websocket_frame use_tcp_protocol header
          (take header.payload_size (drop header.header_size bytes)) in
      let (more, ec', rest) = process_frames fuel use_tcp_protocol (drop size bytes) in
      if header.header_size == 0
      then ([], success, bytes)
      else if is_error ec
      then (effects, ec, bytes)
      else (effects ++ more, ec', rest)

  -- On an error the function returns at once, with the buffer as it was.
  unfoldable pub process_buffer_ws : BasePeer → BasePeer × List (Effect Json)
  unfolding process_frames finish_buffer
  process_buffer_ws p =
      let (effects, ec, rest) =
        process_frames (suc (length p.rx_bytes)) p.use_tcp_protocol p.rx_bytes in
      let (p', last) = finish_buffer (record p { rx_bytes = rest }) in
      if is_error ec then (p, effects ++ (close ec ∷ [])) else (p', effects ++ last)

  unfoldable pub process_buffer : BasePeer → BasePeer × List (Effect Json)
  unfolding process_buffer_tcp process_buffer_ws
  process_buffer p = if p.use_tcp_protocol then process_buffer_tcp p else process_buffer_ws p
