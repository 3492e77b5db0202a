-- ===== src/Buffer/Consume.antt =====
-- `consume` removes bytes at the front.
use mathlib.Core.Path.{ap₂}
use ws_streaming.Prelude.{
  ℕ, zero, suc, ◌+◌, ◌-◌, ◌≤◌, ◌<◌, ◌≡◌, refl, sym, ap, ◌∙◌, List, [], ◌∷◌, ◌++◌, arith, length,
  take, drop, length-append, min, drop-drop, ◌==◌, if◌then◌else◌, take-append_le, take-append,
  drop-append_self, take_all, drop_all, drop_zero,
}
use ws_streaming.Buffer.Copy.{Block}
use ws_streaming.Buffer.Memory.{flat, Sized, flat-append, Sized-append}
use ws_streaming.Buffer.Invariant.{
  IsValid, contents, end_at, end_zero, end_one, end_more, end-le-flat, length-contents,
}
use ws_streaming.Buffer.{
  DynamicBuffer, consume, consume_loop, consume_round, recycle_front_block, rotate,
}

-- The state inside the loop of `consume`: `size` is already less by what is still to be consumed.
abbrev plus : DynamicBuffer → ℕ → DynamicBuffer
plus b n = record b { size = b.size + n }

rotate-Sized : (n : ℕ) (blocks : List Block) → Sized n blocks → Sized n (rotate blocks)
unfolding rotate
rotate-Sized n [] s = s
rotate-Sized n (front ∷ rest) s = Sized-append n rest (front ∷ []) s.1 (s.0, tt)

length-rotate : (blocks : List Block) → length (rotate blocks) ≡ length blocks
unfolding rotate
length-rotate [] = refl
length-rotate (front ∷ rest) = omega (arith, length-append rest (front ∷ []))

-- The memory behind the front block stays in front when that block is recycled.
rotate-take :
    (n e : ℕ) (blocks : List Block)
    → Sized n blocks
    → n + e ≤ length (flat blocks)
    → take e (flat (rotate blocks)) ≡ drop n (take (n + e) (flat blocks))
unfolding rotate
rotate-take n e [] s h = let z : n ≡ 0 = omega arith in let w : e ≡ 0 = omega arith in rw (z, w)
rotate-take n e (front ∷ rest) s h =
    ap (take e) (flat-append rest (front ∷ []))
    ∙ take-append_le e (flat rest) (front ++ [])
        (omega (arith, s.0, length-append front (flat rest)))
    ∙ sym (
        ap (drop n) (
          take-append (n + e) front (flat rest)
          ∙ ap₂ ◌++◌ (take_all (n + e) front (omega (arith, s.0))) (
              ap (λ (k : ℕ). take k (flat rest)) {x = n + e - length front} {y = e}
                (omega (arith, s.0))))
        ∙ ap (λ (k : ℕ). drop k (front ++ take e (flat rest))) (sym s.0)
        ∙ drop-append_self front (take e (flat rest)))

used_pos : (size : ℕ) (b : DynamicBuffer) → 0 < size → IsValid (plus b size) → 0 < b.used
used_pos size b pos v = ground (arith, v, end_zero b.block_size b.used b.write_offset)

-- One round, on a buffer with at least `size` bytes more than its count says.
consume_round-IsValid :
    (size : ℕ) (b : DynamicBuffer)
    → 0 < size
    → IsValid (plus b size)
    → let (b', left) = consume_round size b in
      IsValid (plus b' left) × (left < size) × (b'.size ≡ b.size)
unfolding consume_round recycle_front_block
consume_round-IsValid size b pos v = ground (
  arith,
  used_pos size b pos v,
  rotate-Sized b.block_size b.blocks v.sized,
  length-rotate b.blocks,
  end_one b.block_size b.used b.write_offset,
  end_more b.block_size b.used b.write_offset,
  end_zero b.block_size (b.used - 1) b.write_offset,
  end_one b.block_size (b.used - 1) b.write_offset,
)

-- A round removes from the front what it counts down.
consume_round-contents :
    (size : ℕ) (b : DynamicBuffer)
    → 0 < size
    → IsValid (plus b size)
    → let (b', left) = consume_round size b in contents b' ≡ drop (size - left) (contents b)
unfolding consume_round recycle_front_block
consume_round-contents size b pos v =
    let n = b.block_size in
    let held = take (end_at n b.used b.write_offset) (flat b.blocks) in
    let e = end_at n (b.used - 1) b.write_offset in
    let k = min size ((if b.used == 1 then b.write_offset else n) - b.read_offset) in
    ground (
      arith,
      used_pos size b pos v,
      end_one n b.used b.write_offset,
      end_more n b.used b.write_offset,
      end_zero n (b.used - 1) b.write_offset,
      drop-drop k b.read_offset held,
      drop_all k (drop b.read_offset held),
      length-contents v,
      end-le-flat v,
      rotate-take n e b.blocks v.sized,
    )

consume_loop_lem :
    (fuel size : ℕ) (b : DynamicBuffer)
    → size ≤ fuel
    → IsValid (plus b size)
    → IsValid (consume_loop fuel size b)
      × (contents (consume_loop fuel size b) ≡ drop size (contents b))
unfolding consume_loop
consume_loop_lem zero size b h v = ground (arith, v, drop_zero size (contents b))
consume_loop_lem (suc fuel) size b h v =
    let b' = (consume_round size b).0 in
    let left = (consume_round size b).1 in
    ground (
      arith,
      v,
      drop_zero size (contents b),
      consume_round-IsValid size b,
      consume_round-contents size b,
      consume_loop_lem fuel left b',
      drop-drop left (size - left) (contents b),
    )

-- On a valid buffer `consume` removes the given number of bytes from the front, or all if there
-- are fewer, and leaves the buffer valid.
pub consume-contents :
    (b : DynamicBuffer) (n : ℕ)
    → IsValid b
    → IsValid (consume b n) × (contents (consume b n) ≡ drop n (contents b))
unfolding consume
consume-contents b n v =
    let k = min n b.size in
    ground (
      arith,
      v,
      consume_loop_lem k k (record b { size = b.size - k }),
      length-contents v,
      drop_all n (contents b),
      drop_all k (contents b),
    )
