-- ===== src/Buffer/Write/Commit.antt =====
-- `commit` moves the end of the contents.
use native.Mathlib.Decide.{dec_lt}
use ws_streaming.Prelude.{
  ℕ, zero, suc, ◌+◌, ◌-◌, ◌*◌, ◌≤◌, ◌<◌, ◌≡◌, refl, ap, false, inl, inr, arith, min, ◌==◌,
  zero-or-pos,
}
use ws_streaming.Buffer.Invariant.{end_at, end_pred, mul_pred}
use ws_streaming.Buffer.{DynamicBuffer, commit_loop, commit}

-- What `commit` does: the end moves, and nothing else but the count.
pub record Committed (b b' : DynamicBuffer) (n : ℕ) : Type 0 where
  pub same : b' ≡ record b { used = b'.used; write_offset = b'.write_offset }
  pub ends :
      end_at b.block_size b'.used b'.write_offset ≡ end_at b.block_size b.used b.write_offset + n
  pub written : 0 < b'.used → (0 < b'.write_offset) × (b'.write_offset ≤ b.block_size)
  pub grows : b.used ≤ b'.used
  pub unused : b'.used ≡ 0 → b'.write_offset ≡ b.write_offset

end_suc : (n u w : ℕ) → end_at n (u + 1) w ≡ u * n + w
end_suc n u w = ap (λ (t : ℕ). end_at n t w) {x = u + 1} {y = suc u} (omega arith)

commit_loop-Committed :
    (fuel size : ℕ) (b : DynamicBuffer)
    → size ≤ fuel
    → (0 < size → end_at b.block_size b.used b.write_offset ≡ b.used * b.block_size)
    → (0 < size → 0 < b.block_size)
    → (0 < b.used → (0 < b.write_offset) × (b.write_offset ≤ b.block_size))
    → Committed b (commit_loop fuel size b) size
unfolding commit_loop
commit_loop-Committed zero size b h e pos w = record {
  same = refl;
  ends = omega arith;
  written = w;
  grows = omega arith;
  unused = λ _. refl;
}
commit_loop-Committed (suc fuel) size b h e pos w = elim (zero-or-pos size) [
  | inl z ↦
      rw (z, commit_loop)
        (record {
          same = refl;
          ends = omega arith;
          written = w;
          grows = omega arith;
          unused = λ _. refl;
        })
  | inr p ↦
      let n = min size b.block_size in
      let more : (size == 0) ≡ false = ground arith in
      let c =
        commit_loop-Committed fuel (size - n) (record b { used = b.used + 1; write_offset = n })
          (omega (arith, pos p)) (λ q. omega (arith, end_suc b.block_size b.used n)) (λ q. pos p)
          (λ q. omega (arith, pos p)) in
      rw (more, commit_loop)
        (record {
          same = c.same;
          ends = omega (arith, c.ends, end_suc b.block_size b.used n, e p);
          written = c.written;
          grows = omega (arith, c.grows);
          unused = λ h. absurd (omega (arith, c.grows));
        })
]

commit-partial :
    (b : DynamicBuffer) (n : ℕ)
    → 0 < b.used
    → b.write_offset < b.block_size
    → let k = min n (b.block_size - b.write_offset) in
      commit b n
      ≡ commit_loop
          (n - k)
          (n - k)
          (record b { size = b.size + n; write_offset = b.write_offset + k })
unfolding commit
commit-partial b n u w = ground arith

commit-whole :
    (b : DynamicBuffer) (n : ℕ)
    → (0 < b.used → b.block_size ≤ b.write_offset)
    → commit b n ≡ commit_loop n n (record b { size = b.size + n })
unfolding commit
commit-whole b n h = ground arith

pub commit-Committed :
    (b : DynamicBuffer) (n : ℕ)
    → (0 < n → 0 < b.block_size)
    → (0 < b.used → (0 < b.write_offset) × (b.write_offset ≤ b.block_size))
    → Committed (record b { size = b.size + n }) (commit b n) n
commit-Committed b n pos w = elim (zero-or-pos b.used) [
  | inl z ↦ rw (commit-whole b n (λ h. absurd (omega arith))) (
      commit_loop-Committed n n (record b { size = b.size + n }) (omega arith)
        (λ _. rw z (omega arith)) pos w)
  | inr u ↦ elim (dec_lt b.write_offset b.block_size) [
    | yes room ↦
        let m = b.block_size in
        let k = min n (m - b.write_offset) in
        let c =
          commit_loop-Committed (n - k) (n - k)
            (record b { size = b.size + n; write_offset = b.write_offset + k }) (omega arith)
            (λ q. omega (arith, end_pred m b.used (b.write_offset + k) u, mul_pred m b.used u))
            (λ q. omega arith) (λ q. omega (arith, w u)) in
        rw (commit-partial b n u room) (record {
          same = c.same;
          ends = omega (
            arith,
            c.ends,
            end_pred m b.used (b.write_offset + k) u,
            end_pred m b.used b.write_offset u,
          );
          written = c.written;
          grows = c.grows;
          unused = λ h. absurd (omega (arith, c.grows));
        })
    | no full ↦ rw (commit-whole b n (λ _. omega arith)) (
        commit_loop-Committed n n (record b { size = b.size + n }) (omega arith)
          (λ _. omega (
            arith,
            end_pred b.block_size b.used b.write_offset u,
            mul_pred b.block_size b.used u,
            w u,
          ))
          pos w)
  ]
]
