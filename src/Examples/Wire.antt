-- ===== src/Examples/Wire.antt =====
-- The two wire protocols, and version numbers, on concrete bytes.
use ws_streaming.Prelude.{
  ℕ, ◌≡◌, ◌≢◌, ◌^◌, refl, List, [], ◌∷◌, ◌++◌, true, some, arith, length, not, ◌||◌, ◌↔◌,
}
use ws_streaming.Prelude.Words.{le_bytes}
use ws_streaming.Wire.Streaming
use ws_streaming.Wire.Streaming.RoundTrip
use ws_streaming.Wire.Streaming.Prefix
use ws_streaming.Wire.WebSocket
use ws_streaming.Wire.WebSocket.RoundTrip as Frame
use ws_streaming.Semver.{Semver, lt, le, gt, ge, ne, try_parse}
use ws_streaming.Semver.Order.{Before, comparisons}

-- Signal 7, packet type 1, a payload of 3 bytes.
abbrev header : List ℕ
header = 7 ∷ 0 ∷ 48 ∷ 16 ∷ []

header_generated : Streaming.generate_header 7 1 3 ≡ some header
unfolding Streaming.generate_header
header_generated = refl

decode-generate_example :
    Streaming.decode_header (header ++ (1 ∷ 2 ∷ 3 ∷ [])) ≡ RoundTrip.header_at 7 1 3 4
decode-generate_example =
    RoundTrip.decode-generate 7 1 (omega arith) (omega arith) 3 header (1 ∷ 2 ∷ 3 ∷ [])
      (omega arith) (omega arith) (omega arith) header_generated

header_empty : Streaming.generate_header 7 1 0 ≡ some (7 ∷ 0 ∷ 0 ∷ 16 ∷ [])
unfolding Streaming.generate_header
header_empty = refl

-- A header of no payload, and the word of the next packet's header.
decode-generate_empty_example :
    Streaming.decode_header ((7 ∷ 0 ∷ 0 ∷ 16 ∷ []) ++ le_bytes 2 ++ (5 ∷ 6 ∷ []))
    ≡ RoundTrip.header_at 7 1 2 8
decode-generate_empty_example =
    RoundTrip.decode-generate_empty 7 1 (omega arith) (omega arith) (7 ∷ 0 ∷ 0 ∷ 16 ∷ [])
      (5 ∷ 6 ∷ []) 2 (omega arith) (omega arith) header_empty

-- 2 ^ 31 bytes of payload.
header_huge : Streaming.generate_header 7 1 (2 ^ 31) ≡ some (7 ∷ 0 ∷ 0 ∷ 16 ∷ 0 ∷ 0 ∷ 0 ∷ 128 ∷ [])
unfolding Streaming.generate_header
header_huge = refl

abbrev packet : List ℕ
packet = 7 ∷ 0 ∷ 32 ∷ 16 ∷ 1 ∷ 2 ∷ []

packet_complete : (Streaming.decode_header packet).header_size ≢ 0
unfolding Streaming.decode_header
packet_complete = λ e. omega (arith, e)

decode_header-append_example :
    Streaming.decode_header (packet ++ (9 ∷ [])) ≡ Streaming.decode_header packet
decode_header-append_example = Prefix.decode_header-append packet (9 ∷ []) packet_complete

decode_header-Fits_example : Prefix.Fits (Streaming.decode_header packet) 6
decode_header-Fits_example = Prefix.decode_header-Fits packet packet_complete

decode-generate_frame_example :
    WebSocket.decode_header (WebSocket.generate_header 2 0xc0 3 ++ (1 ∷ 2 ∷ 3 ∷ []))
    ≡ Frame.frame_header 2 0xc0 3 (length (WebSocket.generate_header 2 0xc0 3))
decode-generate_frame_example =
    Frame.decode-generate_frame 2 0xc0 3 (1 ∷ 2 ∷ 3 ∷ []) (omega arith)
      (record { in_byte = omega arith; upper = omega arith }) (omega arith) (omega arith)

-- A frame with a mask.
abbrev masked : List ℕ
masked = 130 ∷ 129 ∷ 1 ∷ 2 ∷ 3 ∷ 4 ∷ 5 ∷ []

masked_complete : (WebSocket.decode_header masked).header_size ≢ 0
unfolding WebSocket.decode_header
masked_complete = λ e. omega (arith, e)

abbrev v1 : Semver
v1 = record { major = 1; minor = 9; revision = 0 }

abbrev v2 : Semver
v2 = record { major = 2; minor = 0; revision = 5 }

abbrev v3 : Semver
v3 = record { major = 2; minor = 1; revision = 0 }

comparisons_example :
    ((lt v1 v2 ≡ true) ↔ Before v1 v2)
    × (gt v1 v2 ≡ lt v2 v1)
    × (le v1 v2 ≡ not (lt v2 v1))
    × (ge v1 v2 ≡ not (lt v1 v2))
    × (ne v1 v2 ≡ (lt v1 v2 || lt v2 v1))
comparisons_example = comparisons v1 v2

lt12 : lt v1 v2 ≡ true
unfolding lt
lt12 = refl

lt23 : lt v2 v3 ≡ true
unfolding lt
lt23 = refl

-- "1.9.0"
parsed : try_parse (49 ∷ 46 ∷ 57 ∷ 46 ∷ 48 ∷ []) ≡ some v1
unfolding try_parse
parsed = refl

-- ".." has three empty components, which `strtoul` reads as 0.
parsed_empty : try_parse (46 ∷ 46 ∷ []) ≡ some (record { major = 0; minor = 0; revision = 0 })
unfolding try_parse
parsed_empty = refl
