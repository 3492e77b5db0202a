-- ===== src/Buffer/Invariant.antt =====
-- The representation of the transmit buffer, and the bytes that it holds.
use ws_streaming.Prelude.{
  ℕ, zero, suc, ◌+◌, ◌-◌, ◌*◌, ◌/◌, ◌≤◌, ◌<◌, ◌≡◌, refl, ap, List, [], arith, length, take, drop,
  length-take, length-drop, min,
}
use ws_streaming.Buffer.Memory.{flat, Sized, length-flat}
use ws_streaming.Buffer.{DynamicBuffer, dynamic_buffer}

-- The address behind the last byte: `used` blocks, the last one filled up to `write`.
abbrev pub end_at : ℕ → ℕ → ℕ → ℕ
end_at n zero write = 0
end_at n (suc k) write = k * n + write

pub record IsValid (b : DynamicBuffer) : Type 0 where
  pub sized : Sized b.block_size b.blocks
  pub allocated : length b.blocks ≤ b.max_blocks
  pub used_allocated : b.used ≤ length b.blocks
  pub unused : b.used ≡ 0 → (b.read_offset ≡ 0) × (b.write_offset ≡ 0)
  pub written : 0 < b.used → (0 < b.write_offset) × (b.write_offset ≤ b.block_size)
  pub read_within : 0 < b.used → b.read_offset < b.block_size
  pub read_first : b.used ≡ 1 → b.read_offset < b.write_offset
  pub sizes : b.read_offset + b.size ≡ end_at b.block_size b.used b.write_offset
  pub some_block : 0 < b.max_blocks → 0 < b.block_size

-- The bytes in the order in which they were written.
abbrev pub contents : DynamicBuffer → List ℕ
contents b = drop b.read_offset (take (end_at b.block_size b.used b.write_offset) (flat b.blocks))

-- The most that it can hold.
abbrev pub capacity : DynamicBuffer → ℕ
capacity b = b.max_blocks * b.block_size

div-mul-le : (a n : ℕ) → a / n * n ≤ a
div-mul-le a n = grind arith

pub end_zero : (n used write : ℕ) → used ≡ 0 → end_at n used write ≡ 0
end_zero n zero write e = refl
end_zero n (suc k) write e = absurd (omega arith)

pub end_one : (n used write : ℕ) → used ≡ 1 → end_at n used write ≡ write
end_one n zero write e = absurd (omega arith)
end_one n (suc zero) write e = omega arith
end_one n (suc (suc k)) write e = absurd (omega arith)

pub end_more : (n used write : ℕ) → 2 ≤ used → end_at n used write ≡ n + end_at n (used - 1) write
end_more n zero write h = absurd (omega arith)
end_more n (suc zero) write h = absurd (omega arith)
end_more n (suc (suc k)) write h =
    let e : n + (k * n + write) ≡ n + end_at n (suc (suc k) - 1) write =
      ap (λ (t : ℕ). n + end_at n t write) {x = suc k} {y = suc (suc k) - 1} (omega arith) in
    omega (arith, e)

pub end_pred : (n u w : ℕ) → 0 < u → end_at n u w ≡ (u - 1) * n + w
end_pred n zero w h = absurd (omega arith)
end_pred n (suc k) w h = ap (λ (t : ℕ). t * n + w) {x = k} {y = suc k - 1} (omega arith)

pub mul_pred : (n u : ℕ) → 0 < u → u * n ≡ (u - 1) * n + n
mul_pred n zero h = absurd (omega arith)
mul_pred n (suc k) h = omega (arith, ap (λ (t : ℕ). t * n) {x = k} {y = suc k - 1} (omega arith))

-- A new buffer is valid and empty, and holds no more than the limit that it was given.
pub dynamic_buffer-IsValid :
    (max_size block_size : ℕ)
    → let b = dynamic_buffer max_size block_size in
      IsValid b × (contents b ≡ []) × (capacity b ≤ max_size)
unfolding dynamic_buffer
dynamic_buffer-IsValid max_size block_size =
    ground (arith, div-mul-le max_size (min block_size max_size))

end_le :
    (n used write count : ℕ)
    → used ≤ count
    → (0 < used → write ≤ n)
    → end_at n used write ≤ count * n
end_le n zero write count h w = omega arith
end_le n (suc k) write count h w = grind arith

pub end-le-flat :
    {b : DynamicBuffer}
    → IsValid b
    → end_at b.block_size b.used b.write_offset ≤ length (flat b.blocks)
end-le-flat {b} v = omega (
  arith,
  length-flat b.block_size b.blocks v.sized,
  end_le b.block_size b.used b.write_offset (length b.blocks) v.used_allocated
      (λ h. (v.written h).1),
)

-- `_size` is the number of bytes held.
pub length-contents : {b : DynamicBuffer} → IsValid b → length (contents b) ≡ b.size
length-contents {b} v = omega (
  arith,
  v.sizes,
  end-le-flat v,
  length-drop b.read_offset (take (end_at b.block_size b.used b.write_offset) (flat b.blocks)),
  length-take (end_at b.block_size b.used b.write_offset) (flat b.blocks),
)
