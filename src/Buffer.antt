-- ===== src/Buffer.antt =====
-- The transmit buffer: src/detail/dynamic_buffer.cpp and include/ws-streaming/detail/dynamic_buffer.hpp.
-- The deque is a list of blocks of bytes; a buffer descriptor is a block, an offset and a size.
-- Sizes are far below 2 ^ 64 (they are bounded by the buffer's limit), so they do not wrap.
pub mod Copy
pub mod Memory
pub mod Invariant
pub mod Consume
pub mod Write
pub mod Gather
use ws_streaming.Prelude.{
  ℕ, zero, suc, ◌+◌, ◌-◌, ◌*◌, ◌/◌, List, [], ◌∷◌, ◌++◌, Bool, true, false, ◌&&◌, not, Option, none,
  some, ltb, ◌==◌, if◌then◌else◌, length, take, drop, replicate, min,
}
use Copy.{Block, Region, BufferCopy}

pub record DynamicBuffer : Type 0 where
  pub blocks : List Block
  pub block_size : ℕ
  pub max_blocks : ℕ
  pub used : ℕ
  pub read_offset : ℕ
  pub write_offset : ℕ
  pub size : ℕ

unfoldable pub dynamic_buffer : ℕ → ℕ → DynamicBuffer
dynamic_buffer max_size block_size = record {
  blocks = [];
  block_size = min block_size max_size;
  max_blocks = if min block_size max_size == 0 then 0 else max_size / min block_size max_size;
  used = 0;
  read_offset = 0;
  write_offset = 0;
  size = 0;
}

abbrev pub max_buffers : ℕ
max_buffers = 64

-- The loop of `data`, over the blocks from index `i` on, with room for `room` more descriptors.
-- A descriptor is given by the bytes that it stands for.
gather : DynamicBuffer → List Block → ℕ → ℕ → List (List ℕ)
gather b [] i room = []
gather b (block ∷ rest) i room =
    let begin = if i == 0 then b.read_offset else 0 in
    let end = if i == b.used - 1 then b.write_offset else b.block_size in
    let some_data = ltb begin end in
    let more = gather b rest (i + 1) (if some_data then room - 1 else room) in
    if ltb i b.used && ltb 0 room
    then (if some_data then take (end - begin) (drop begin block) ∷ more else more)
    else []

unfoldable pub buffers : DynamicBuffer → List (List ℕ)
unfolding gather
buffers b = gather b b.blocks 0 max_buffers

unfoldable pub empty : DynamicBuffer → Bool
empty b = b.size == 0

-- `recycle_front_block`: the front block becomes the last of the available ones.
rotate : List Block → List Block
rotate [] = []
rotate (front ∷ rest) = rest ++ (front ∷ [])

recycle_front_block : DynamicBuffer → DynamicBuffer
recycle_front_block b = record b {
  blocks = rotate b.blocks;
  used = b.used - 1;
  read_offset = 0;
  write_offset = if b.used - 1 == 0 then 0 else b.write_offset;
}

-- One round of the loop of `consume`, with the buffer and what is left to consume after it.
consume_round : ℕ → DynamicBuffer → DynamicBuffer × ℕ
unfolding recycle_front_block
consume_round size b =
    let end = if b.used == 1 then b.write_offset else b.block_size in
    let bytes_consumed = min size (end - b.read_offset) in
    let b' = record b { read_offset = b.read_offset + bytes_consumed } in
    (
      if b.read_offset + bytes_consumed == end then recycle_front_block b' else b',
      size - bytes_consumed,
    )

consume_loop : ℕ → ℕ → DynamicBuffer → DynamicBuffer
consume_loop zero size b = b
consume_loop (suc fuel) size b =
    let (b', left) = consume_round size b in
    let rest = consume_loop fuel left b' in if size == 0 then b else rest

-- Each round consumes a byte at least, so the size is fuel enough.
unfoldable pub consume : DynamicBuffer → ℕ → DynamicBuffer
unfolding consume_loop consume_round rotate
consume b size = let n = min size b.size in consume_loop n n (record b { size = b.size - n })

-- A block at index `i`, allocated if the limit allows; `none` where the loop breaks.
acquire : DynamicBuffer → ℕ → Option DynamicBuffer
acquire b i =
    if i == length b.blocks
    then (if length b.blocks == b.max_blocks
        then none
        else some (record b { blocks = b.blocks ++ (replicate b.block_size 0 ∷ []) }))
    else some b

-- The second loop of `prepare`.
prepare_loop : ℕ → ℕ → ℕ → DynamicBuffer → DynamicBuffer × List Region
prepare_loop zero i size b = (b, [])
prepare_loop (suc fuel) i size b = elim (size == 0) [
  | true ↦ (b, [])
  | false ↦ elim (acquire b i) [
    | none ↦ (b, [])
    | some b' ↦
        let available = min size b'.block_size in
        let (b'', regions) = prepare_loop fuel (i + 1) (size - available) b' in
        (b'', record { block = i; offset = 0; size = available } ∷ regions)
  ]
]

-- The loop ends at the limit on the blocks, if not before.
pub prepare : DynamicBuffer → ℕ → DynamicBuffer × List Region
unfolding prepare_loop acquire
prepare b size =
    if not (size == 0) && not (b.used == 0) && ltb b.write_offset b.block_size
    then (let available = min size (b.block_size - b.write_offset) in
        let (b', regions) = prepare_loop (suc b.max_blocks) b.used (size - available) b in
        (b', record { block = b.used - 1; offset = b.write_offset; size = available } ∷ regions))
    else prepare_loop (suc b.max_blocks) b.used size b

-- The loop of `commit`; each round commits a byte at least.
commit_loop : ℕ → ℕ → DynamicBuffer → DynamicBuffer
commit_loop zero size b = b
commit_loop (suc fuel) size b =
    let n = min size b.block_size in
    let rest = commit_loop fuel (size - n) (record b { used = b.used + 1; write_offset = n }) in
    if size == 0 then b else rest

pub commit : DynamicBuffer → ℕ → DynamicBuffer
unfolding commit_loop
commit b size =
    let b' = record b { size = b.size + size } in
    if not (b.used == 0) && ltb b.write_offset b.block_size
    then (let n = min size (b.block_size - b.write_offset) in
        commit_loop (size - n) (size - n) (record b' { write_offset = b.write_offset + n }))
    else commit_loop size size b'

module _ (copy : BufferCopy) where
  unfoldable pub write : DynamicBuffer → List ℕ → DynamicBuffer × ℕ
  unfolding prepare commit
  write b bytes =
      let (b', regions) = prepare b (length bytes) in
      let (blocks', bytes_written) = copy.buffer_copy b'.blocks regions bytes in
      (commit (record b' { blocks = blocks' }) bytes_written, bytes_written)
