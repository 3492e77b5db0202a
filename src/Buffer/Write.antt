-- ===== src/Buffer/Write.antt =====
-- `write` appends at the back.
mod Prepare
mod Commit
use native.Mathlib.Decide.{dec_lt}
use ws_streaming.Prelude.{
  ℕ, zero, suc, ◌+◌, ◌-◌, ◌*◌, ◌≤◌, ◌<◌, ◌≡◌, refl, sym, ap, ◌∙◌, List, [], ◌∷◌, ◌++◌, Bool, true,
  false, ◌⊎◌, inl, inr, Option, none, some, arith, length, take, drop, length-take, length-drop,
  length-append, length-replicate, min, drop-drop, Bool-cases, Option-cases, ◌==◌, take-append_le,
  take-append_self, drop-append_le, append_assoc, append-nil, replicate, ==_iff, subst, zero-or-pos,
}
use ws_streaming.Buffer.Copy.{Block, Region, BufferCopy, buffer_size, scatter, splice}
use ws_streaming.Buffer.Memory.{
  flat, Sized, Consecutive, length-flat, flat-append, Sized-append, scatter-flat, block_end,
}
use ws_streaming.Buffer.Invariant.{
  IsValid, contents, capacity, end_at, end_zero, end_one, end_more, end_pred, mul_pred, end-le-flat,
  length-contents,
}
use ws_streaming.Buffer.{DynamicBuffer, acquire, prepare_loop, prepare, commit_loop, commit, write}
use ws_streaming.Buffer.Write.Prepare.{with_blocks, Prepared, prepare-Prepared}
use ws_streaming.Buffer.Write.Commit.{Committed, commit-Committed}

mul_le : (i m n : ℕ) → i ≤ m → i * n ≤ m * n
mul_le i m n h = grind arith

used_le : (n u w count : ℕ) → end_at n u w ≤ count * n → (0 < u → 0 < w) → u ≤ count
used_le n zero w count h p = omega arith
used_le n (suc k) w count h p = elim (dec_lt k count) [
  | yes q ↦ omega arith
  | no q ↦ absurd (omega (arith, mul_le count k n (omega arith), p (omega arith)))
]

-- The regions end inside the blocks.
Consecutive-end :
    (n count a : ℕ) (rs : List Region)
    → a ≤ count * n
    → Consecutive n count a rs
    → a + buffer_size rs ≤ count * n
Consecutive-end n count a [] h c = omega arith
Consecutive-end n count a (r ∷ rs) h (e, within, there, more) = omega (
  arith,
  Consecutive-end n count (a + r.size) rs
      (omega (arith, block_end r.block r.offset r.size n count within there)) more,
)

-- The bytes up to the end of what was written.
take-splice :
    (m : List ℕ) (a k : ℕ) (x : List ℕ)
    → a ≤ length m
    → length x ≡ k
    → take (a + k) (splice m a x) ≡ take a m ++ x
take-splice m a k x h e =
    ap (take (a + k)) (sym (append_assoc (take a m) x (drop (a + length x) m)))
    ∙ ap (λ (t : ℕ). take t ((take a m ++ x) ++ drop (a + length x) m)) {y = length (take a m ++ x)}
        (omega (arith, length-append (take a m) x, length-take a m))
    ∙ take-append_self (take a m ++ x) (drop (a + length x) m)

-- A buffer after its blocks have been written and the end has moved.
module _ (b : DynamicBuffer) (v : IsValid b) (blocks : List Block) (n u w : ℕ) where
  abbrev moved : DynamicBuffer
  moved = record b { blocks = blocks; size = b.size + n; used = u; write_offset = w }

  moved-IsValid :
      Sized b.block_size blocks
      → length b.blocks ≤ length blocks
      → length blocks ≤ b.max_blocks
      → end_at b.block_size u w ≡ end_at b.block_size b.used b.write_offset + n
      → end_at b.block_size u w ≤ length blocks * b.block_size
      → (0 < u → (0 < w) × (w ≤ b.block_size))
      → b.used ≤ u
      → (u ≡ 0 → w ≡ b.write_offset)
      → IsValid moved
  moved-IsValid s longer a e fits p grows z = record {
    sized = s;
    allocated = a;
    used_allocated = used_le b.block_size u w (length blocks) fits (λ h. (p h).0);
    unused = λ h. ground (arith, v.unused, z h);
    written = p;
    read_within = λ h. ground (arith, v.unused, v.read_within, p h);
    read_first = λ h. ground (
      arith,
      v,
      p,
      end_one b.block_size u w h,
      end_zero b.block_size b.used b.write_offset,
      end_one b.block_size b.used b.write_offset,
    );
    sizes = omega (arith, v.sizes);
    some_block = v.some_block;
  }

-- The effect of `commit` after the copy into prepared regions.
written :
    (b : DynamicBuffer) (bytes : List ℕ) (out : DynamicBuffer × List Region)
    → IsValid b
    → (p : Prepared b (end_at b.block_size b.used b.write_offset) (length bytes) out)
    → let n = buffer_size out.1 in
      let b' = commit (record b { blocks = scatter (b.blocks ++ p.extra) out.1 bytes }) n in
      IsValid b' × (contents b' ≡ contents b ++ take n bytes)
written b bytes out v p =
    let m = b.block_size in
    let e = end_at m b.used b.write_offset in
    let n = buffer_size out.1 in
    let old = b.blocks ++ p.extra in
    let lo = length-flat m old p.sized in
    let longer = length-append b.blocks p.extra in
    let at_end : e ≤ length (flat b.blocks) = end-le-flat v in
    let le : e ≤ length (flat old) = omega (
      arith,
      lo,
      length-flat m b.blocks v.sized,
      mul_le (length b.blocks) (length old) m (omega (arith, longer)),
    ) in
    let (f, s, l) =
      scatter-flat m e old out.1 bytes p.sized p.consecutive (omega (arith, p.total)) le in
    let blocks = scatter old out.1 bytes in
    let fits : e + n ≤ length blocks * m = omega (
      arith,
      Consecutive-end m (length old) e out.1 (omega (arith, lo)) p.consecutive,
      ap (λ (t : ℕ). t * m) l,
    ) in
    let c =
      commit-Committed (record b { blocks = blocks }) n
        (λ h. elim (zero-or-pos b.max_blocks) [
          | inl z ↦ absurd (omega (arith, p.total, ap (λ (t : ℕ). t * m) z))
          | inr q ↦ v.some_block q
        ])
        v.written in
    let b' = commit (record b { blocks = blocks }) n in
    (
      subst IsValid (sym c.same) (
          moved-IsValid b v blocks n b'.used b'.write_offset s (omega (arith, l, longer))
            (omega (arith, l, p.allocated)) c.ends (omega (arith, c.ends)) c.written c.grows
            c.unused),
      ap contents c.same
          ∙ ap (λ (t : ℕ). drop b.read_offset (take t (flat blocks))) c.ends
          ∙ ap (λ (t : List ℕ). drop b.read_offset (take (e + n) t)) f
          ∙ ap (drop b.read_offset) (
              take-splice (flat old) e n (take n bytes) le
                (omega (arith, length-take n bytes, p.total))
              ∙ ap (λ (t : List ℕ). take e t ++ take n bytes) (flat-append b.blocks p.extra)
              ∙ ap (λ (t : List ℕ). t ++ take n bytes)
                  (take-append_le e (flat b.blocks) (flat p.extra) at_end))
          ∙ drop-append_le b.read_offset (take e (flat b.blocks)) (take n bytes)
              (omega (arith, length-take e (flat b.blocks), v.sizes)),
    )

module _ (copy : BufferCopy) where
  write-commit :
      (b : DynamicBuffer) (bytes : List ℕ)
      → (p : Prepared b
          (end_at b.block_size b.used b.write_offset)
          (length bytes)
          (prepare b (length bytes)))
      → let rs = (prepare b (length bytes)).1 in
        write copy b bytes ≡ (
          commit (record b { blocks = scatter (b.blocks ++ p.extra) rs bytes }) (buffer_size rs),
          buffer_size rs,
        )
  unfolding write
  write-commit b bytes p =
      let rs = (prepare b (length bytes)).1 in
      ap
        (λ (t : DynamicBuffer).
          let r = copy.buffer_copy t.blocks rs bytes in
          (commit (record t { blocks = r.0 }) r.1, r.1))
        p.same
      ∙ ap (λ (r : List Block × ℕ). (commit (record b { blocks = r.0 }) r.1, r.1))
          (copy.buffer_copy_lem (b.blocks ++ p.extra) rs bytes)
      ∙ ap (λ (k : ℕ). (commit (record b { blocks = scatter (b.blocks ++ p.extra) rs bytes }) k, k))
          (omega (arith, p.total))

  -- On a valid buffer `write` appends as many of the bytes as there is room for, in order,
  -- returns their number, and leaves the buffer valid.
  pub write-contents :
      (b : DynamicBuffer) (bytes : List ℕ)
      → IsValid b
      → let (b', n) = write copy b bytes in
        IsValid b'
        × (contents b' ≡ contents b ++ take n bytes)
        × (n ≡ min (length bytes) (capacity b - end_at b.block_size b.used b.write_offset))
  write-contents b bytes v =
      let p = prepare-Prepared b (length bytes) v in
      let (valid, holds) = written b bytes (prepare b (length bytes)) v p in
      rw (write-commit b bytes p) (valid, holds, p.total)
