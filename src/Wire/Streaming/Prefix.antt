-- ===== src/Wire/Streaming/Prefix.antt =====
-- `decode_header` on a part of the input: what it reads, and what more input changes.
use ws_streaming.Prelude.{
  ℕ, ◌+◌, ◌≤◌, ◌≡◌, ◌≢◌, refl, List, ◌++◌, arith, length, drop, length-append, length-drop,
  drop-append_le, get_or-append,
}
use ws_streaming.Wire.Streaming.{
  DecodedHeader, le_int, sign_extend, decode_first, decode_payload, decode_size, decode_header,
  decode_header-short, decode_header-long,
}

-- A packet that lies in the input.
abbrev pub Fits : DecodedHeader → ℕ → Type 0
Fits h size = (4 ≤ h.header_size) × (h.header_size ≤ 8) × (h.header_size + h.payload_size ≤ size)

decode_payload-Fits :
    (h : DecodedHeader) (rest : List ℕ) (passed size : ℕ)
    → h.header_size ≡ 0
    → 4 ≤ passed
    → passed ≤ 8
    → passed + length rest ≡ size
    → (decode_payload h rest passed).header_size ≢ 0
    → Fits (decode_payload h rest passed) size
unfolding decode_payload
decode_payload-Fits h rest passed size z lo hi e ne = ground arith

decode_size-Fits :
    (h : DecodedHeader) (rest : List ℕ) (size : ℕ)
    → h.header_size ≡ 0
    → 4 + length rest ≡ size
    → (decode_size h rest 4).header_size ≢ 0
    → Fits (decode_size h rest 4) size
unfolding decode_size
decode_size-Fits h rest size z e ne = ground (
  arith,
  length-drop 4 rest,
  decode_payload-Fits (record h { payload_size = sign_extend (le_int rest) }) (drop 4 rest) 8 size
      z,
  decode_payload-Fits h rest 4 size z,
)

-- A packet that the decoder accepts lies in the input, header and payload.
pub decode_header-Fits :
    (bytes : List ℕ)
    → (decode_header bytes).header_size ≢ 0
    → Fits (decode_header bytes) (length bytes)
decode_header-Fits bytes ne = ground (
  arith,
  length-drop 4 bytes,
  decode_header-short bytes,
  decode_header-long bytes,
  decode_size-Fits (decode_first bytes) (drop 4 bytes) (length bytes) (unfold decode_first in refl),
)

decode_payload-append :
    (h : DecodedHeader) (rest more : List ℕ) (passed : ℕ)
    → h.header_size ≡ 0
    → (decode_payload h rest passed).header_size ≢ 0
    → decode_payload h (rest ++ more) passed ≡ decode_payload h rest passed
unfolding decode_payload
decode_payload-append h rest more passed z ne = ground (arith, length-append rest more)

le_int-append : (rest more : List ℕ) → 4 ≤ length rest → le_int (rest ++ more) ≡ le_int rest
unfolding le_int
le_int-append rest more h = rw (
  get_or-append rest more 0 0 (omega arith),
  get_or-append rest more 1 0 (omega arith),
  get_or-append rest more 2 0 (omega arith),
  get_or-append rest more 3 0 (omega arith),
)

decode_first-append :
    (bytes more : List ℕ) → 4 ≤ length bytes → decode_first (bytes ++ more) ≡ decode_first bytes
unfolding decode_first
decode_first-append bytes more h = rw (
  get_or-append bytes more 0 0 (omega arith),
  get_or-append bytes more 1 0 (omega arith),
  get_or-append bytes more 2 0 (omega arith),
  get_or-append bytes more 3 0 (omega arith),
)

decode_size-append :
    (h : DecodedHeader) (rest more : List ℕ)
    → h.header_size ≡ 0
    → (decode_size h rest 4).header_size ≢ 0
    → decode_size h (rest ++ more) 4 ≡ decode_size h rest 4
unfolding decode_size
decode_size-append h rest more z ne = ground (
  arith,
  length-append rest more,
  drop-append_le 4 rest more,
  le_int-append rest more,
  decode_payload-append (record h { payload_size = sign_extend (le_int rest) }) (drop 4 rest) more 8
      z,
  decode_payload-append h rest more 4 z,
)

-- A packet that the decoder accepts is read the same however many bytes follow it.
pub decode_header-append :
    (bytes more : List ℕ)
    → (decode_header bytes).header_size ≢ 0
    → decode_header (bytes ++ more) ≡ decode_header bytes
decode_header-append bytes more ne = ground (
  arith,
  length-append bytes more,
  drop-append_le 4 bytes more,
  decode_first-append bytes more,
  decode_header-short bytes,
  decode_header-long bytes,
  decode_header-long (bytes ++ more),
  decode_size-append (decode_first bytes) (drop 4 bytes) more (unfold decode_first in refl),
)
