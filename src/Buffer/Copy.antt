-- ===== src/Buffer/Copy.antt =====
-- Buffer descriptors, and `boost::asio::buffer_copy` on them, which is not part of the repository.
use ws_streaming.Prelude.{ℕ, zero, suc, ◌+◌, ◌≡◌, List, [], ◌∷◌, ◌++◌, length, take, drop, min}

abbrev pub Block : Type 0
Block = List ℕ

-- `size` bytes of the block at index `block`, from `offset` on.
pub record Region : Type 0 where
  pub block : ℕ
  pub offset : ℕ
  pub size : ℕ

-- `boost::asio::buffer_size`
abbrev pub buffer_size : List Region → ℕ
buffer_size [] = 0
buffer_size (r ∷ rs) = r.size + buffer_size rs

-- `bytes` over what stands at `offset`.
abbrev pub splice : List ℕ → ℕ → List ℕ → List ℕ
splice memory offset bytes = take offset memory ++ (bytes ++ drop (offset + length bytes) memory)

abbrev pub write_block : List Block → ℕ → ℕ → List ℕ → List Block
write_block [] i offset bytes = []
write_block (block ∷ rest) zero offset bytes = splice block offset bytes ∷ rest
write_block (block ∷ rest) (suc i) offset bytes = block ∷ write_block rest i offset bytes

-- The blocks after the source's bytes have gone to the regions in turn.
abbrev pub scatter : List Block → List Region → List ℕ → List Block
scatter blocks [] source = blocks
scatter blocks (r ∷ rs) source =
    scatter (write_block blocks r.block r.offset (take r.size source)) rs (drop r.size source)

-- The documented effect of `buffer_copy`: as many bytes as fit, to the regions in turn; the result
-- is their number.
pub record BufferCopy : Type 0 where
  pub buffer_copy : List Block → List Region → List ℕ → List Block × ℕ
  pub buffer_copy_lem :
      (blocks : List Block) (regions : List Region) (source : List ℕ)
      → buffer_copy blocks regions source
        ≡ (scatter blocks regions source, min (buffer_size regions) (length source))
