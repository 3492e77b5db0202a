-- ===== src/Wire/WebSocket.antt =====
-- The WebSocket frame header: include/ws-streaming/detail/websocket_protocol.hpp and
-- src/detail/websocket_protocol.cpp. A byte array with its size is the list of its bytes.
pub mod Opcodes
pub mod RoundTrip
pub mod Prefix
use Prim.Native.Nat.{bit_and, bit_or}
use ws_streaming.Prelude.{
  ℕ, ◌+◌, ◌*◌, ◌/◌, ◌^◌, List, [], ◌∷◌, Bool, true, false, ltb, leb, not, ◌==◌, if◌then◌else◌,
  length, get_or, take, drop,
}
use ws_streaming.Prelude.Words.{u8, u64}

abbrev pub fin : ℕ
fin = 0x80

-- The bytes that `generate_header` stores, whose number is what it returns.
unfoldable pub generate_header : ℕ → ℕ → ℕ → List ℕ
generate_header opcode flags payload_size =
    if leb payload_size 125
    then u8 (bit_or opcode flags) ∷ u8 payload_size ∷ []
    else if leb payload_size 65535
    then u8 (bit_or opcode flags) ∷ 126 ∷ u8 (payload_size / 2 ^ 8) ∷ u8 payload_size ∷ []
    else u8 (bit_or opcode flags)
      ∷ 127
      ∷ u8 (payload_size / 2 ^ 56)
      ∷ u8 (payload_size / 2 ^ 48)
      ∷ u8 (payload_size / 2 ^ 40)
      ∷ u8 (payload_size / 2 ^ 32)
      ∷ u8 (payload_size / 2 ^ 24)
      ∷ u8 (payload_size / 2 ^ 16)
      ∷ u8 (payload_size / 2 ^ 8)
      ∷ u8 payload_size
      ∷ []

-- `decoded_header`. The masking key has four bytes.
pub record DecodedHeader : Type 0 where
  pub header_size : ℕ
  pub flags : ℕ
  pub opcode : ℕ
  pub payload_size : ℕ
  pub is_masked : Bool
  pub masking_key : List ℕ

-- `decoded_header header { }`
abbrev pub no_header : DecodedHeader
no_header = record {
  header_size = 0;
  flags = 0;
  opcode = 0;
  payload_size = 0;
  is_masked = false;
  masking_key = 0 ∷ 0 ∷ 0 ∷ 0 ∷ [];
}

abbrev pub byte_at : List ℕ → ℕ → ℕ
byte_at bytes i = get_or bytes i 0

abbrev pub be_16 : List ℕ → ℕ
be_16 d = bit_or (byte_at d 0 * 2 ^ 8) (byte_at d 1)

-- The shifts are of `std::uint64_t`, and join from the left.
abbrev pub be_64 : List ℕ → ℕ
be_64 d =
    bit_or
      (bit_or
        (bit_or
          (bit_or
            (bit_or
              (bit_or (bit_or (u64 (byte_at d 0 * 2 ^ 56)) (u64 (byte_at d 1 * 2 ^ 48)))
                (u64 (byte_at d 2 * 2 ^ 40)))
              (u64 (byte_at d 3 * 2 ^ 32)))
            (u64 (byte_at d 4 * 2 ^ 24)))
          (u64 (byte_at d 5 * 2 ^ 16)))
        (u64 (byte_at d 6 * 2 ^ 8)))
      (byte_at d 7)

-- The parts of `decode_header`, each with the bytes that are left and the number of bytes passed
-- (`data - data_begin`). A part returns the header as it stands where the code returns early.
decode_payload : DecodedHeader → List ℕ → ℕ → DecodedHeader
decode_payload h rest passed =
    if leb h.payload_size (length rest) then record h { header_size = passed } else h

decode_mask : DecodedHeader → List ℕ → ℕ → DecodedHeader
decode_mask h rest passed =
    if h.is_masked
    then (if ltb (length rest) 4
        then h
        else decode_payload (record h { masking_key = take 4 rest }) (drop 4 rest) (passed + 4))
    else decode_payload h rest passed

decode_length : DecodedHeader → List ℕ → ℕ → DecodedHeader
decode_length h rest passed =
    if h.payload_size == 126
    then (if ltb (length rest) 2
        then h
        else decode_mask (record h { payload_size = be_16 rest }) (drop 2 rest) (passed + 2))
    else if h.payload_size == 127
    then (if ltb (length rest) 8
        then h
        else decode_mask (record h { payload_size = be_64 rest }) (drop 8 rest) (passed + 8))
    else decode_mask h rest passed

-- The fields of the first two bytes.
decode_first : List ℕ → DecodedHeader
decode_first bytes = record no_header {
  opcode = bit_and (byte_at bytes 0) 0xf;
  flags = bit_and (byte_at bytes 0) 0xf0;
  is_masked = not (bit_and (byte_at bytes 1) 0x80 == 0);
  payload_size = bit_and (byte_at bytes 1) 0x7f;
}

unfoldable pub decode_header : List ℕ → DecodedHeader
unfolding decode_first decode_length decode_mask decode_payload
decode_header bytes =
    if ltb (length bytes) 2 then no_header else decode_length (decode_first bytes) (drop 2 bytes) 2
