-- ===== src/Wire/WebSocket/RoundTrip.antt =====
-- A frame header that `generate_header` wrote is read back by `decode_header`.
use Prim.Native.Nat.{bit_and, bit_or}
use ws_streaming.Prelude.{
  ℕ, ◌+◌, ◌*◌, ◌/◌, ◌%◌, ◌^◌, ◌≤◌, ◌<◌, ◌≡◌, refl, List, [], ◌∷◌, ◌++◌, false, length, arith,
}
use ws_streaming.Prelude.Bits.{
  bit_or_join, bit_or_above, bit_and_0xf, bit_and_0xf0, bit_and_0x7f, bit_and_0x80,
}
use ws_streaming.Prelude.Words.{u8, u64}
use ws_streaming.Wire.WebSocket.{generate_header, decode_header, DecodedHeader, be_64}

module _ (a b c d e f g h : ℕ) where
  IsBytes : Type 0
  IsBytes =
      (a < 256) × (b < 256) × (c < 256) × (d < 256) × (e < 256) × (f < 256) × (g < 256) × (h < 256)

  be_64_bytes :
      IsBytes
      → (rest : List ℕ)
      → be_64 (a ∷ b ∷ c ∷ d ∷ e ∷ f ∷ g ∷ h ∷ rest)
        ≡ ((((((a * 256 + b) * 256 + c) * 256 + d) * 256 + e) * 256 + f) * 256 + g) * 256 + h
  unfolding IsBytes
  be_64_bytes p rest =
      let x0 = u64 (a * 2 ^ 56) in
      let x1 = bit_or x0 (u64 (b * 2 ^ 48)) in
      let x2 = bit_or x1 (u64 (c * 2 ^ 40)) in
      let x3 = bit_or x2 (u64 (d * 2 ^ 32)) in
      let x4 = bit_or x3 (u64 (e * 2 ^ 24)) in
      let x5 = bit_or x4 (u64 (f * 2 ^ 16)) in
      let x6 = bit_or x5 (u64 (g * 2 ^ 8)) in
      let x7 = bit_or x6 (h) in
      let e1 = bit_or_join 56 (a) x0 (u64 (b * 2 ^ 48)) (omega arith) (omega arith) in
      let e2 =
        bit_or_join 48 (a * 256 + b) x1 (u64 (c * 2 ^ 40)) (omega (arith, e1)) (omega arith) in
      let e3 =
        bit_or_join 40 ((a * 256 + b) * 256 + c) x2 (u64 (d * 2 ^ 32)) (omega (arith, e2))
          (omega arith) in
      let e4 =
        bit_or_join 32 (((a * 256 + b) * 256 + c) * 256 + d) x3 (u64 (e * 2 ^ 24))
          (omega (arith, e3)) (omega arith) in
      let e5 =
        bit_or_join 24 ((((a * 256 + b) * 256 + c) * 256 + d) * 256 + e) x4 (u64 (f * 2 ^ 16))
          (omega (arith, e4)) (omega arith) in
      let e6 =
        bit_or_join 16 (((((a * 256 + b) * 256 + c) * 256 + d) * 256 + e) * 256 + f) x5
          (u64 (g * 2 ^ 8)) (omega (arith, e5)) (omega arith) in
      omega (
        arith,
        bit_or_join 8 ((((((a * 256 + b) * 256 + c) * 256 + d) * 256 + e) * 256 + f) * 256 + g) x6 h
            (omega (arith, e6)) (omega arith),
      )

-- What `decode_header` finds in front of a payload that is there.
abbrev pub frame_header : ℕ → ℕ → ℕ → ℕ → DecodedHeader
frame_header opcode flags payload_size header_size = record {
  header_size = header_size;
  flags = flags;
  opcode = opcode;
  payload_size = payload_size;
  is_masked = false;
  masking_key = 0 ∷ 0 ∷ 0 ∷ 0 ∷ [];
}

-- Flags stand in the upper four bits of a byte.
pub record IsFlags (flags : ℕ) : Type 0 where
  pub in_byte : flags < 256
  pub upper : flags % 16 ≡ 0

first_byte :
    (opcode flags : ℕ) → opcode < 16 → IsFlags flags → u8 (bit_or opcode flags) ≡ opcode + flags
first_byte opcode flags h f =
    omega (
      arith,
      f.in_byte,
      f.upper,
      bit_or_above 4 (flags / 16) opcode flags (omega (arith, f.upper)) h,
    )

-- The first byte has both fields.
HasFields : ℕ → ℕ → ℕ → Type 0
HasFields byte opcode flags = (bit_and byte 0xf ≡ opcode) × (bit_and byte 0xf0 ≡ flags)

first_byte-HasFields :
    (opcode flags : ℕ)
    → opcode < 16
    → IsFlags flags
    → HasFields (u8 (bit_or opcode flags)) opcode flags
unfolding HasFields
first_byte-HasFields opcode flags h f =
    let b = u8 (bit_or opcode flags) in
    let e = first_byte opcode flags h f in
    (
      omega (arith, bit_and_0xf b, e, f.upper, h),
      omega (arith, bit_and_0xf0 b, e, f.upper, f.in_byte, h),
    )

decode_small :
    (opcode flags n : ℕ) (tail : List ℕ)
    → HasFields (u8 (bit_or opcode flags)) opcode flags
    → n ≤ 125
    → n ≤ length tail
    → decode_header (generate_header opcode flags n ++ tail) ≡ frame_header opcode flags n 2
unfolding generate_header decode_header HasFields
decode_small opcode flags n tail hf hn ht = ground (arith, bit_and_0x7f (u8 n), bit_and_0x80 (u8 n))

decode_medium :
    (opcode flags n : ℕ) (tail : List ℕ)
    → HasFields (u8 (bit_or opcode flags)) opcode flags
    → 125 < n
    → n ≤ 65535
    → n ≤ length tail
    → decode_header (generate_header opcode flags n ++ tail) ≡ frame_header opcode flags n 4
unfolding generate_header decode_header HasFields
decode_medium opcode flags n tail hf hn hm ht =
    ground (arith, bit_or_join 8 (u8 (n / 2 ^ 8)) (u8 (n / 2 ^ 8) * 2 ^ 8) (u8 n) refl)

be_64-bytes :
    (n : ℕ) (tail : List ℕ)
    → n < 2 ^ 64
    → be_64 (
        u8 (n / 2 ^ 56)
        ∷ u8 (n / 2 ^ 48)
        ∷ u8 (n / 2 ^ 40)
        ∷ u8 (n / 2 ^ 32)
        ∷ u8 (n / 2 ^ 24)
        ∷ u8 (n / 2 ^ 16)
        ∷ u8 (n / 2 ^ 8)
        ∷ u8 n
        ∷ tail)
      ≡ n
unfolding IsBytes
be_64-bytes n tail h = omega (
  arith,
  be_64_bytes (u8 (n / 2 ^ 56)) (u8 (n / 2 ^ 48)) (u8 (n / 2 ^ 40)) (u8 (n / 2 ^ 32))
      (u8 (n / 2 ^ 24)) (u8 (n / 2 ^ 16)) (u8 (n / 2 ^ 8)) (u8 n) (omega arith) tail,
)

decode_large :
    (opcode flags n : ℕ) (tail : List ℕ)
    → HasFields (u8 (bit_or opcode flags)) opcode flags
    → 65535 < n
    → n < 2 ^ 64
    → n ≤ length tail
    → decode_header (generate_header opcode flags n ++ tail) ≡ frame_header opcode flags n 10
unfolding generate_header decode_header HasFields
decode_large opcode flags n tail hf hn hm ht = ground (arith, be_64-bytes n tail hm)

length-generate_frame :
    (opcode flags n : ℕ)
    → (2 ≤ length (generate_header opcode flags n)) × (length (generate_header opcode flags n) ≤ 10)
unfolding generate_header
length-generate_frame opcode flags n = ground arith

-- A frame header with an opcode below 16, any flags in the upper four bits of a byte and a size
-- below 2^64, whose payload is there, is decoded to this opcode, these flags and this size,
-- without a mask, and to its own length.
pub decode-generate_frame :
    (opcode flags n : ℕ) (tail : List ℕ)
    → opcode < 16
    → IsFlags flags
    → n < 2 ^ 64
    → n ≤ length tail
    → decode_header (generate_header opcode flags n ++ tail)
      ≡ frame_header opcode flags n (length (generate_header opcode flags n))
unfolding generate_header
decode-generate_frame opcode flags n tail ho hf hn ht = ground (
  arith,
  decode_small opcode flags n tail (first_byte-HasFields opcode flags ho hf),
  decode_medium opcode flags n tail (first_byte-HasFields opcode flags ho hf),
  decode_large opcode flags n tail (first_byte-HasFields opcode flags ho hf),
)
