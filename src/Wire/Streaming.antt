-- ===== src/Wire/Streaming.antt =====
-- The packet header of the streaming protocol: include/ws-streaming/detail/streaming_protocol.hpp
-- and src/detail/streaming_protocol.cpp. `size_t` and `unsigned` have 64 and 32 bits.
pub mod Codes
pub mod Payload
pub mod RoundTrip
pub mod Prefix
use Prim.Native.Nat.{bit_and, bit_or}
use ws_streaming.Prelude.{
  ℕ, ◌+◌, ◌-◌, ◌*◌, ◌/◌, ◌^◌, List, [], ◌∷◌, ◌++◌, Option, none, some, ltb, leb, ◌==◌,
  if◌then◌else◌, length, get_or, drop, ◌≤◌, ◌<◌, ◌≡◌, ltb-false, arith,
}
use ws_streaming.Prelude.Words.{u32, le_bytes}

-- The bytes that `generate_header` stores, whose number is what it returns; `none` where it
-- throws. `type << 28` drops the bits above the word.
unfoldable pub generate_header : ℕ → ℕ → ℕ → Option (List ℕ)
generate_header signo type payload_size =
    if ltb payload_size 256
    then some (le_bytes (bit_or (bit_or signo (u32 (payload_size * 2 ^ 20))) (u32 (type * 2 ^ 28))))
    else if leb payload_size (2 ^ 32 - 1)
    then some (le_bytes (bit_or signo (u32 (type * 2 ^ 28))) ++ le_bytes (u32 payload_size))
    else none

pub record DecodedHeader : Type 0 where
  pub header_size : ℕ
  pub signo : ℕ
  pub type : ℕ
  pub payload_size : ℕ

abbrev pub no_header : DecodedHeader
no_header = record { header_size = 0; signo = 0; type = 0; payload_size = 0 }

abbrev byte_at : List ℕ → ℕ → ℕ
byte_at bytes i = get_or bytes i 0

-- An `int` that is assigned to a `size_t`: the bits of the word, the sign extended.
unfoldable pub sign_extend : ℕ → ℕ
sign_extend w = if ltb w (2 ^ 31) then w else w + (2 ^ 64 - 2 ^ 32)

-- `(data[3] << 24) | (data[2] << 16) | (data[1] << 8) | data[0]`, computed in `int`.
unfoldable pub le_int : List ℕ → ℕ
le_int d =
    bit_or (bit_or (bit_or (byte_at d 3 * 2 ^ 24) (byte_at d 2 * 2 ^ 16)) (byte_at d 1 * 2 ^ 8))
      (byte_at d 0)

-- The end of `decode_header`: the payload must be there.
decode_payload : DecodedHeader → List ℕ → ℕ → DecodedHeader
decode_payload h rest passed =
    if leb h.payload_size (length rest) then record h { header_size = passed } else h

-- The second word, for a payload too large for the first.
decode_size : DecodedHeader → List ℕ → ℕ → DecodedHeader
decode_size h rest passed =
    if h.payload_size == 0
    then (if ltb (length rest) 4
        then h
        else decode_payload (record h { payload_size = sign_extend (le_int rest) }) (drop 4 rest)
            (passed + 4))
    else decode_payload h rest passed

-- The fields of the first word.
decode_first : List ℕ → DecodedHeader
decode_first bytes = record {
  header_size = 0;
  type = byte_at bytes 3 / 2 ^ 4;
  signo =
      bit_or (bit_or (bit_and (byte_at bytes 2) 0xf * 2 ^ 16) (byte_at bytes 1 * 2 ^ 8))
        (byte_at bytes 0);
  payload_size = bit_or (bit_and (byte_at bytes 3) 0xf * 2 ^ 4) (byte_at bytes 2 / 2 ^ 4);
}

unfoldable pub decode_header : List ℕ → DecodedHeader
unfolding decode_first decode_size decode_payload
decode_header bytes =
    if ltb (length bytes) 4 then no_header else decode_size (decode_first bytes) (drop 4 bytes) 4

decode_header-short : (bytes : List ℕ) → length bytes < 4 → (decode_header bytes).header_size ≡ 0
unfolding decode_header
decode_header-short bytes h = ground arith

decode_header-long :
    (bytes : List ℕ)
    → 4 ≤ length bytes
    → decode_header bytes ≡ decode_size (decode_first bytes) (drop 4 bytes) 4
unfolding decode_header
decode_header-long bytes h = rw (ltb-false (length bytes) 4 h)
