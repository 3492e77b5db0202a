-- ===== src/Wire/WebSocket/Opcodes.antt =====
-- The opcodes of websocket_protocol.hpp.
use ws_streaming.Prelude.{ℕ}

abbrev pub text : ℕ
text = 1

abbrev pub binary : ℕ
binary = 2

abbrev pub close : ℕ
close = 8

abbrev pub ping : ℕ
ping = 9

abbrev pub pong : ℕ
pong = 10
