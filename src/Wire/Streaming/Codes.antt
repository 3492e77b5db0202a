-- ===== src/Wire/Streaming/Codes.antt =====
-- The packet types and metadata encodings of streaming_protocol.hpp.
use ws_streaming.Prelude.{ℕ}

abbrev pub data_packet : ℕ
data_packet = 1

abbrev pub metadata_packet : ℕ
metadata_packet = 2

abbrev pub json : ℕ
json = 1

abbrev pub msgpack : ℕ
msgpack = 2
