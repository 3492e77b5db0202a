-- ===== src/Wire/WebSocket/Prefix.antt =====
-- `decode_header` on a part of the input: what it reads, and what more input changes.
use ws_streaming.Prelude.{
  ℕ, ◌+◌, ◌≤◌, ◌<◌, ◌≡◌, refl, ◌≢◌, List, ◌++◌, arith, length, take, drop, length-append,
  length-drop, drop-append_le, take-append_le, get_or-append, ltb-false,
}
use ws_streaming.Wire.WebSocket.{
  DecodedHeader, decode_first, be_16, be_64, decode_payload, decode_mask, decode_length,
  decode_header,
}

-- A header is complete when its size is set; then it and its payload lie in the input.
abbrev pub Fits : DecodedHeader → ℕ → Type 0
Fits h size = (2 ≤ h.header_size) × (h.header_size ≤ 14) × (h.header_size + h.payload_size ≤ size)

decode_payload-Fits :
    (h : DecodedHeader) (rest : List ℕ) (passed size : ℕ)
    → h.header_size ≡ 0
    → 2 ≤ passed
    → passed ≤ 14
    → passed + length rest ≡ size
    → (decode_payload h rest passed).header_size ≢ 0
    → Fits (decode_payload h rest passed) size
unfolding decode_payload
decode_payload-Fits h rest passed size z lo hi e ne = ground arith

decode_mask-Fits :
    (h : DecodedHeader) (rest : List ℕ) (passed size : ℕ)
    → h.header_size ≡ 0
    → 2 ≤ passed
    → passed ≤ 10
    → passed + length rest ≡ size
    → (decode_mask h rest passed).header_size ≢ 0
    → Fits (decode_mask h rest passed) size
unfolding decode_mask
decode_mask-Fits h rest passed size z lo hi e ne = ground (
  arith,
  length-drop 4 rest,
  decode_payload-Fits (record h { masking_key = take 4 rest }) (drop 4 rest) (passed + 4) size z,
  decode_payload-Fits h rest passed size z,
)

decode_length-Fits :
    (h : DecodedHeader) (rest : List ℕ) (size : ℕ)
    → h.header_size ≡ 0
    → 2 + length rest ≡ size
    → (decode_length h rest 2).header_size ≢ 0
    → Fits (decode_length h rest 2) size
unfolding decode_length
decode_length-Fits h rest size z e ne = ground (
  arith,
  length-drop 2 rest,
  length-drop 8 rest,
  decode_mask-Fits (record h { payload_size = be_16 rest }) (drop 2 rest) 4 size z,
  decode_mask-Fits (record h { payload_size = be_64 rest }) (drop 8 rest) 10 size z,
  decode_mask-Fits h rest 2 size z,
)

-- A frame that the decoder accepts lies in the input, header and payload.
pub decode_header-Fits_frame :
    (bytes : List ℕ)
    → (decode_header bytes).header_size ≢ 0
    → Fits (decode_header bytes) (length bytes)
unfolding decode_header
decode_header-Fits_frame bytes ne =
    ground (arith, length-drop 2 bytes, decode_length-Fits _ (drop 2 bytes) (length bytes))

decode_payload-append :
    (h : DecodedHeader) (rest more : List ℕ) (passed : ℕ)
    → h.header_size ≡ 0
    → (decode_payload h rest passed).header_size ≢ 0
    → decode_payload h (rest ++ more) passed ≡ decode_payload h rest passed
unfolding decode_payload
decode_payload-append h rest more passed z ne = ground (arith, length-append rest more)

decode_mask-append :
    (h : DecodedHeader) (rest more : List ℕ) (passed : ℕ)
    → h.header_size ≡ 0
    → (decode_mask h rest passed).header_size ≢ 0
    → decode_mask h (rest ++ more) passed ≡ decode_mask h rest passed
unfolding decode_mask
decode_mask-append h rest more passed z ne = ground (
  arith,
  length-append rest more,
  take-append_le 4 rest more,
  drop-append_le 4 rest more,
  decode_payload-append (record h { masking_key = take 4 rest }) (drop 4 rest) more (passed + 4) z,
  decode_payload-append h rest more passed z,
)

be_16-append : (rest more : List ℕ) → 2 ≤ length rest → be_16 (rest ++ more) ≡ be_16 rest
be_16-append rest more h =
    rw (get_or-append rest more 0 0 (omega arith), get_or-append rest more 1 0 (omega arith))

be_64-append : (rest more : List ℕ) → 8 ≤ length rest → be_64 (rest ++ more) ≡ be_64 rest
be_64-append rest more h = rw (
  get_or-append rest more 0 0 (omega arith),
  get_or-append rest more 1 0 (omega arith),
  get_or-append rest more 2 0 (omega arith),
  get_or-append rest more 3 0 (omega arith),
  get_or-append rest more 4 0 (omega arith),
  get_or-append rest more 5 0 (omega arith),
  get_or-append rest more 6 0 (omega arith),
  get_or-append rest more 7 0 (omega arith),
)

decode_length-append :
    (h : DecodedHeader) (rest more : List ℕ)
    → h.header_size ≡ 0
    → (decode_length h rest 2).header_size ≢ 0
    → decode_length h (rest ++ more) 2 ≡ decode_length h rest 2
unfolding decode_length
decode_length-append h rest more z ne = ground (
  arith,
  length-append rest more,
  drop-append_le 2 rest more,
  drop-append_le 8 rest more,
  be_16-append rest more,
  be_64-append rest more,
  decode_mask-append (record h { payload_size = be_16 rest }) (drop 2 rest) more 4 z,
  decode_mask-append (record h { payload_size = be_64 rest }) (drop 8 rest) more 10 z,
  decode_mask-append h rest more 2 z,
)

decode_first-append :
    (bytes more : List ℕ) → 2 ≤ length bytes → decode_first (bytes ++ more) ≡ decode_first bytes
unfolding decode_first
decode_first-append bytes more h =
    rw (get_or-append bytes more 0 0 (omega arith), get_or-append bytes more 1 0 (omega arith))

-- The test of `decode_header`, with its parts shut.
decode_header-short : (bytes : List ℕ) → length bytes < 2 → (decode_header bytes).header_size ≡ 0
unfolding decode_header
decode_header-short bytes h = ground arith

decode_header-long :
    (bytes : List ℕ)
    → 2 ≤ length bytes
    → decode_header bytes ≡ decode_length (decode_first bytes) (drop 2 bytes) 2
unfolding decode_header
decode_header-long bytes h = rw (ltb-false (length bytes) 2 h)

-- A complete frame's header is read the same however many bytes follow the frame.
pub decode_header-append_frame :
    (bytes more : List ℕ)
    → (decode_header bytes).header_size ≢ 0
    → decode_header (bytes ++ more) ≡ decode_header bytes
decode_header-append_frame bytes more ne = ground (
  arith,
  length-append bytes more,
  drop-append_le 2 bytes more,
  decode_first-append bytes more,
  decode_header-short bytes,
  decode_header-long bytes,
  decode_header-long (bytes ++ more),
  decode_length-append (decode_first bytes) (drop 2 bytes) more (unfold decode_first in refl),
)
