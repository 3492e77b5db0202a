-- ===== src/Wire/Streaming/RoundTrip.antt =====
-- What `generate_header` wrote and `decode_header` reads back, for every size of the payload.
use Prim.Native.Nat.{bit_and, bit_or}
use ws_streaming.Prelude.{
  ℕ, ◌+◌, ◌*◌, ◌/◌, ◌%◌, ◌^◌, ◌≤◌, ◌<◌, ◌≡◌, refl, ◌∙◌, List, ◌++◌, some, arith, length,
}
use native.Mathlib.Decide.{dec_lt}
use ws_streaming.Prelude.Bits.{bit_or_join, bit_or_above, bit_and_0xf}
use ws_streaming.Prelude.Words.{u8, u32, le_bytes}
use ws_streaming.Wire.Streaming.{
  DecodedHeader, generate_header, decode_header-long, decode_first, decode_size, decode_payload,
  decode_header, le_int, sign_extend,
}

le_int-le_bytes : (w : ℕ) (tail : List ℕ) → w < 2 ^ 32 → le_int (le_bytes w ++ tail) ≡ w
unfolding le_int
le_int-le_bytes w tail h =
    let a = u8 (w / 2 ^ 24) in
    let b = u8 (w / 2 ^ 16) in
    let c = u8 (w / 2 ^ 8) in
    let e1 = bit_or_join 24 a (a * 2 ^ 24) (b * 2 ^ 16) refl (omega arith) in
    let e2 =
      bit_or_join 16 (a * 2 ^ 8 + b) (bit_or (a * 2 ^ 24) (b * 2 ^ 16)) (c * 2 ^ 8)
        (omega (arith, e1)) (omega arith) in
    omega (
      arith,
      bit_or_join 8 (a * 2 ^ 16 + b * 2 ^ 8 + c)
          (bit_or (bit_or (a * 2 ^ 24) (b * 2 ^ 16)) (c * 2 ^ 8)) (u8 w) (omega (arith, e2))
          (omega arith),
    )

-- The first word: signal number, size and type side by side.
pack_first :
    (signo type n : ℕ)
    → signo < 2 ^ 20
    → n < 2 ^ 8
    → type < 16
    → bit_or (bit_or signo (u32 (n * 2 ^ 20))) (u32 (type * 2 ^ 28))
      ≡ signo + n * 2 ^ 20 + type * 2 ^ 28
pack_first signo type n hs hn ht =
    let e = bit_or_above 20 n signo (u32 (n * 2 ^ 20)) (omega arith) hs in
    omega (
      arith,
      e,
      bit_or_above 28 type (bit_or signo (u32 (n * 2 ^ 20))) (u32 (type * 2 ^ 28)) (omega arith)
          (omega (arith, e)),
    )

abbrev pub header_at : ℕ → ℕ → ℕ → ℕ → DecodedHeader
header_at signo type n size = record {
  header_size = size;
  signo = signo;
  type = type;
  payload_size = n;
}

decode_first-le_bytes :
    (signo type n : ℕ) (tail : List ℕ)
    → signo < 2 ^ 20
    → n < 2 ^ 8
    → type < 16
    → decode_first (le_bytes (signo + n * 2 ^ 20 + type * 2 ^ 28) ++ tail)
      ≡ header_at signo type n 0
unfolding decode_first
decode_first-le_bytes signo type n tail hs hn ht =
    let w = signo + n * 2 ^ 20 + type * 2 ^ 28 in
    let b2 = u8 (w / 2 ^ 16) in
    let b3 = u8 (w / 2 ^ 24) in
    let m = bit_and_0xf b2 in
    let e =
      bit_or_join 16 (b2 % 16) (bit_and b2 0xf * 2 ^ 16) (u8 (w / 2 ^ 8) * 2 ^ 8) (omega (arith, m))
        (omega arith) in
    ground (
      arith,
      m,
      bit_and_0xf b3,
      e,
      bit_or_join 8 (b2 % 16 * 2 ^ 8 + u8 (w / 2 ^ 8))
          (bit_or (bit_and b2 0xf * 2 ^ 16) (u8 (w / 2 ^ 8) * 2 ^ 8)) (u8 w) (omega (arith, e))
          (omega arith),
      bit_or_join 4 (b3 % 16) (bit_and b3 0xf * 2 ^ 4) (b2 / 2 ^ 4) (omega (arith, bit_and_0xf b3))
          (omega arith),
    )

abbrev first_word : ℕ → ℕ → ℕ → ℕ
first_word signo type n = signo + n * 2 ^ 20 + type * 2 ^ 28

pack_large :
    (signo type : ℕ)
    → signo < 2 ^ 20
    → type < 16
    → bit_or signo (u32 (type * 2 ^ 28)) ≡ first_word signo type 0
pack_large signo type hs ht =
    omega (arith, bit_or_above 28 type signo (u32 (type * 2 ^ 28)) (omega arith) (omega arith))

module _ (signo type : ℕ) (signo_lt : signo < 2 ^ 20) (type_lt : type < 16) where
  one_word :
      (n : ℕ) (tail : List ℕ)
      → 0 < n
      → n < 2 ^ 8
      → decode_header (le_bytes (first_word signo type n) ++ tail)
        ≡ decode_payload (header_at signo type n 0) tail 4
  unfolding decode_size
  one_word n tail lo hi =
      decode_header-long (le_bytes (first_word signo type n) ++ tail) (omega arith)
      ∙ rw (decode_first-le_bytes signo type n tail signo_lt hi type_lt) (ground arith)

  two_words :
      (w : ℕ) (tail : List ℕ)
      → w < 2 ^ 32
      → decode_header (le_bytes (first_word signo type 0) ++ le_bytes w ++ tail)
        ≡ decode_payload (header_at signo type (sign_extend w) 0) tail 8
  unfolding decode_size
  two_words w tail h =
      decode_header-long (le_bytes (first_word signo type 0) ++ le_bytes w ++ tail) (omega arith)
      ∙ rw
          (
            decode_first-le_bytes signo type 0 (le_bytes w ++ tail) signo_lt (omega arith) type_lt,
            le_int-le_bytes w tail h,
          )
          (ground arith)

  generate_small :
      (n : ℕ) → n < 2 ^ 8 → generate_header signo type n ≡ some (le_bytes (first_word signo type n))
  unfolding generate_header
  generate_small n h = ground (arith, pack_first signo type n signo_lt h type_lt)

  generate_large :
      (n : ℕ)
      → 2 ^ 8 ≤ n
      → n < 2 ^ 32
      → generate_header signo type n ≡ some (le_bytes (first_word signo type 0) ++ le_bytes n)
  unfolding generate_header
  generate_large n lo hi = ground (arith, pack_large signo type signo_lt type_lt)

  -- For a signal number below 2^20 and a type below 16, a packet header with a payload of 1 to
  -- 2^31 - 1 bytes, all of them there, is decoded to what it was generated from.
  pub decode-generate :
      (n : ℕ) (header tail : List ℕ)
      → 0 < n
      → n < 2 ^ 31
      → n ≤ length tail
      → generate_header signo type n ≡ some header
      → decode_header (header ++ tail) ≡ header_at signo type n (length header)
  unfolding decode_payload sign_extend
  decode-generate n header tail lo hi fits e = elim (dec_lt n (2 ^ 8)) [
    | yes small ↦ ground (arith, generate_small n small, one_word n tail lo small)
    | no large ↦ ground (arith, generate_large n, two_words n tail)
  ]

  -- The header of a packet without payload is decoded with the next word of the stream as the
  -- size of its payload.
  pub decode-generate_empty :
      (header tail : List ℕ) (w : ℕ)
      → w < 2 ^ 31
      → w ≤ length tail
      → generate_header signo type 0 ≡ some header
      → decode_header (header ++ le_bytes w ++ tail) ≡ header_at signo type w 8
  unfolding decode_payload sign_extend
  decode-generate_empty header tail w h fits e = ground (arith, generate_small 0, two_words w tail)

  -- A packet header with a size of 2^31 bytes or more is generated, but the decoder accepts it on
  -- no input shorter than 2^63 bytes.
  pub decode-generate_huge :
      (n : ℕ) (header tail : List ℕ)
      → 2 ^ 31 ≤ n
      → n < 2 ^ 32
      → length tail < 2 ^ 63
      → generate_header signo type n ≡ some header
      → (decode_header (header ++ tail)).header_size ≡ 0
  unfolding decode_payload sign_extend
  decode-generate_huge n header tail lo hi fits e =
      ground (arith, generate_large n, two_words n tail)

-- A header is one word or two.
pub length-generate :
    (signo type n : ℕ) (header : List ℕ)
    → generate_header signo type n ≡ some header
    → (4 ≤ length header) × (length header ≤ 8)
unfolding generate_header
length-generate signo type n header e = ground arith
