-- ===== src/Buffer/Write/Prepare.antt =====
-- `prepare` hands out consecutive regions behind the contents.
use native.Mathlib.Decide.{dec_lt}
use ws_streaming.Prelude.{
  ℕ, zero, suc, ◌+◌, ◌-◌, ◌*◌, ◌≤◌, ◌<◌, ◌≡◌, refl, sym, ap, ◌∙◌, List, [], ◌∷◌, ◌++◌, false, ◌⊎◌,
  inl, inr, none, some, arith, length, length-append, length-replicate, min, Bool-cases, ◌==◌,
  append_assoc, append-nil, replicate, subst, zero-or-pos,
}
use ws_streaming.Buffer.Copy.{Block, Region, buffer_size}
use ws_streaming.Buffer.Memory.{Sized, Consecutive, Sized-append}
use ws_streaming.Buffer.Invariant.{IsValid, capacity, end_at, end_zero, end_pred, mul_pred}
use ws_streaming.Buffer.{DynamicBuffer, acquire, prepare_loop, prepare}

abbrev pub with_blocks : DynamicBuffer → List Block → DynamicBuffer
with_blocks b extra = record b { blocks = b.blocks ++ extra }

pub record HasRoom (b : DynamicBuffer) (i : ℕ) : Type 0 where
  pub sized : Sized b.block_size b.blocks
  pub allocated : length b.blocks ≤ b.max_blocks
  pub index : i ≤ length b.blocks
  pub some_block : 0 < b.max_blocks → 0 < b.block_size

-- A block at index `i` is there, or is allocated, unless the limit is reached.
acquire_cases :
    (b : DynamicBuffer) (i : ℕ)
    → HasRoom b i
    → ((acquire b i ≡ none) × (i ≡ b.max_blocks))
      ⊎ ((extra : List Block) × (acquire b i ≡ some (with_blocks b extra))
          × HasRoom (with_blocks b extra) (i + 1))
unfolding acquire
acquire_cases b i r = elim (Bool-cases (i == length b.blocks)) [
  | inl new ↦ elim (Bool-cases (length b.blocks == b.max_blocks)) [
    | inl full ↦ inl (rw (new, full), ground arith)
    | inr free ↦ inr (
      replicate b.block_size 0 ∷ [],
      rw (new, free),
      record {
        sized = Sized-append _ b.blocks _ r.sized (length-replicate b.block_size 0, tt);
        allocated = ground (arith, length-append b.blocks (replicate b.block_size 0 ∷ []));
        index = ground (arith, length-append b.blocks (replicate b.block_size 0 ∷ []));
        some_block = r.some_block;
      },
    )
  ]
  | inr old ↦ inr (
    [],
    rw old (ap (λ (t : List Block). some (record b { blocks = t })) (sym (append-nil b.blocks))),
    rw append-nil (record {
      sized = r.sized;
      allocated = r.allocated;
      index = ground arith;
      some_block = r.some_block;
    }),
  )
]

-- What the loop of `prepare` hands out from block `i` on: consecutive regions, as much as is asked
-- for and the limit allows.
pub record Prepared (b : DynamicBuffer) (a size : ℕ) (out : DynamicBuffer × List Region)
    : Type 0 where
  pub extra : List Block
  pub same : out.0 ≡ with_blocks b extra
  pub sized : Sized b.block_size (b.blocks ++ extra)
  pub allocated : length (b.blocks ++ extra) ≤ b.max_blocks
  pub consecutive : Consecutive b.block_size (length (b.blocks ++ extra)) a out.1
  pub total : buffer_size out.1 ≡ min size (capacity b - a)

nothing-Prepared :
    (b : DynamicBuffer) (i a size : ℕ)
    → HasRoom b i
    → min size (capacity b - a) ≡ 0
    → Prepared b a size (b, [])
nothing-Prepared b i a size r e = record {
  extra = [];
  same = ap (λ (t : List Block). record b { blocks = t }) (sym (append-nil b.blocks));
  sized = rw append-nil r.sized;
  allocated = rw append-nil r.allocated;
  consecutive = tt;
  total = sym e;
}

prepare_loop_zero : (fuel i : ℕ) (b : DynamicBuffer) → prepare_loop fuel i 0 b ≡ (b, [])
unfolding prepare_loop
prepare_loop_zero zero i b = refl
prepare_loop_zero (suc fuel) i b = refl

mul_le : (i m n : ℕ) → i ≤ m → i * n ≤ m * n
mul_le i m n h = grind arith

Consecutive-step :
    (n count i size : ℕ) (rs : List Region)
    → (size < n → rs ≡ [])
    → Consecutive n count ((i + 1) * n) rs
    → Consecutive n count (i * n + min size n) rs
Consecutive-step n count i size rs stops c = elim (dec_lt size n) [
  | yes short ↦ rw (stops short) tt
  | no full ↦ subst (λ (a : ℕ). Consecutive n count a rs) (omega arith) c
]

-- A region in front of what the rest of the loop hands out.
region_Prepared :
    (b : DynamicBuffer) (i size : ℕ) (extra : List Block) (out : DynamicBuffer × List Region)
    → HasRoom b i
    → HasRoom (with_blocks b extra) (i + 1)
    → 0 < size
    → (size < b.block_size → out.1 ≡ [])
    → Prepared (with_blocks b extra) ((i + 1) * b.block_size) (size - min size b.block_size) out
    → Prepared b
        (i * b.block_size)
        size
        (out.0, record { block = i; offset = 0; size = min size b.block_size } ∷ out.1)
region_Prepared b i size extra out r r' pos stops p = record {
  extra = extra ++ p.extra;
  same =
      p.same
      ∙ ap (λ (t : List Block). record b { blocks = t }) (append_assoc b.blocks extra p.extra);
  sized = rw (← append_assoc) p.sized;
  allocated = rw (← append_assoc) p.allocated;
  consecutive = rw (← append_assoc) (
    omega arith,
    omega arith,
    omega (arith, length-append (b.blocks ++ extra) p.extra, r'.index),
    subst
        (λ (t : List Block).
          Consecutive b.block_size (length t) (i * b.block_size + min size b.block_size) out.1)
        (append_assoc b.blocks extra p.extra)
        (Consecutive-step b.block_size _ i size out.1 stops p.consecutive),
  );
  total = omega (
    arith,
    p.total,
    r'.some_block,
    mul_le (i + 1) b.max_blocks b.block_size (omega (arith, r'.index, r'.allocated)),
  );
}

prepare_loop-none :
    (fuel i size : ℕ) (b : DynamicBuffer)
    → (size == 0) ≡ false
    → acquire b i ≡ none
    → prepare_loop (suc fuel) i size b ≡ (b, [])
unfolding prepare_loop
prepare_loop-none fuel i size b e f = rw (e, prepare_loop) (rw (f, prepare_loop))

prepare_loop-some :
    (fuel i size : ℕ) (b b' : DynamicBuffer)
    → (size == 0) ≡ false
    → acquire b i ≡ some b'
    → let out = prepare_loop fuel (i + 1) (size - min size b'.block_size) b' in
      prepare_loop (suc fuel) i size b
      ≡ (out.0, record { block = i; offset = 0; size = min size b'.block_size } ∷ out.1)
unfolding prepare_loop
prepare_loop-some fuel i size b b' e f = rw (e, prepare_loop) (rw (f, prepare_loop))

prepare_loop_short :
    (fuel i k n : ℕ) (b : DynamicBuffer) → k < n → (prepare_loop fuel i (k - min k n) b).1 ≡ []
prepare_loop_short fuel i k n b h =
    ap (λ (t : ℕ). (prepare_loop fuel i t b).1) {x = k - min k n} {y = 0} (omega arith)
    ∙ ap (λ (t : DynamicBuffer × List Region). t.1) (prepare_loop_zero fuel i b)

prepare_loop-Prepared :
    (fuel i size : ℕ) (b : DynamicBuffer)
    → HasRoom b i
    → b.max_blocks < fuel + i
    → Prepared b (i * b.block_size) size (prepare_loop fuel i size b)
prepare_loop-Prepared zero i size b r h = absurd (ground arith)
prepare_loop-Prepared (suc fuel) i size b r h = elim (zero-or-pos size) [
  | inl z ↦ rw (z, prepare_loop_zero (suc fuel) i b) (nothing-Prepared b i _ 0 r (omega arith))
  | inr pos ↦
      let more : (size == 0) ≡ false = ground arith in
      elim (acquire_cases b i r) [
        | inl (e, full) ↦
            rw (prepare_loop-none fuel i size b more e)
              (nothing-Prepared b i _ size r (rw full (omega arith)))
        | inr (extra, e, r') ↦ rw (prepare_loop-some fuel i size b (with_blocks b extra) more e) (
            region_Prepared b i size extra _ r r' pos
              (prepare_loop_short fuel (i + 1) size b.block_size (with_blocks b extra))
              (prepare_loop-Prepared fuel (i + 1) (size - min size b.block_size)
                (with_blocks b extra) r' (omega arith)))
      ]
]

IsValid-HasRoom : {b : DynamicBuffer} → IsValid b → HasRoom b b.used
IsValid-HasRoom v = record {
  sized = v.sized;
  allocated = v.allocated;
  index = v.used_allocated;
  some_block = v.some_block;
}

prepare-partial :
    (b : DynamicBuffer) (size : ℕ)
    → 0 < size
    → 0 < b.used
    → b.write_offset < b.block_size
    → let available = min size (b.block_size - b.write_offset) in
      let out = prepare_loop (suc b.max_blocks) b.used (size - available) b in
      prepare b size
      ≡ (out.0, record { block = b.used - 1; offset = b.write_offset; size = available } ∷ out.1)
unfolding prepare
prepare-partial b size p q r = ground arith

prepare-whole :
    (b : DynamicBuffer) (size : ℕ)
    → (0 < size → 0 < b.used → b.block_size ≤ b.write_offset)
    → prepare b size ≡ prepare_loop (suc b.max_blocks) b.used size b
unfolding prepare
prepare-whole b size h = ground arith

Consecutive-to :
    (n count a a' : ℕ) (rs : List Region)
    → (rs ≡ []) ⊎ (a ≡ a')
    → Consecutive n count a rs
    → Consecutive n count a' rs
Consecutive-to n count a a' rs (inl e) c = rw e tt
Consecutive-to n count a a' rs (inr e) c = subst (λ (t : ℕ). Consecutive n count t rs) e c

-- The tail of the last block in front of what the loop hands out.
tail_Prepared :
    (b : DynamicBuffer) (size : ℕ) (out : DynamicBuffer × List Region)
    → IsValid b
    → 0 < b.used
    → b.write_offset < b.block_size
    → (size ≤ b.block_size - b.write_offset → out.1 ≡ [])
    → Prepared b (b.used * b.block_size) (size - min size (b.block_size - b.write_offset)) out
    → Prepared b (end_at b.block_size b.used b.write_offset) size (
      out.0,
      record {
        block = b.used - 1;
        offset = b.write_offset;
        size = min size (b.block_size - b.write_offset);
      }
          ∷ out.1,
    )
tail_Prepared b size out v u w stops p =
    let n = b.block_size in
    let e = end_pred n b.used b.write_offset u in
    record {
      extra = p.extra;
      same = p.same;
      sized = p.sized;
      allocated = p.allocated;
      consecutive = (
        sym e,
        omega arith,
        omega (arith, length-append b.blocks p.extra, v.used_allocated),
        Consecutive-to n _ (b.used * n) _ out.1
            (elim (dec_lt (n - b.write_offset) size) [
              | yes more ↦ inr (omega (arith, e, mul_pred n b.used u))
              | no less ↦ inl (stops (omega arith))
            ])
            p.consecutive,
      );
      total = omega (
        arith,
        p.total,
        e,
        mul_pred n b.used u,
        mul_le b.used b.max_blocks n (omega (arith, v.used_allocated, v.allocated)),
      );
    }

-- `prepare` on a valid buffer: regions from the end of the contents on.
pub prepare-Prepared :
    (b : DynamicBuffer) (size : ℕ)
    → IsValid b
    → Prepared b (end_at b.block_size b.used b.write_offset) size (prepare b size)
prepare-Prepared b size v = elim (zero-or-pos size) [
  | inl z ↦
      rw
        (
          z,
          prepare-whole b 0 (λ h. absurd (omega arith)),
          prepare_loop_zero (suc b.max_blocks) b.used b,
        )
        (nothing-Prepared b b.used _ 0 (IsValid-HasRoom v) (omega arith))
  | inr pos ↦ elim (zero-or-pos b.used) [
    | inl none_used ↦
        rw
          (
            prepare-whole b size (λ _ h. absurd (omega arith)),
            end_zero b.block_size b.used b.write_offset none_used,
          )
          (subst (λ (a : ℕ). Prepared b a size (prepare_loop (suc b.max_blocks) b.used size b))
            (rw none_used (omega arith))
            (prepare_loop-Prepared (suc b.max_blocks) b.used size b (IsValid-HasRoom v)
              (omega arith)))
    | inr u ↦ elim (dec_lt b.write_offset b.block_size) [
      | yes w ↦ rw (prepare-partial b size pos u w) (
          tail_Prepared b size _ v u w
            (λ h.
              ap (λ (t : ℕ). (prepare_loop (suc b.max_blocks) b.used t b).1)
                {x = size - min size (b.block_size - b.write_offset)} {y = 0} (omega arith)
              ∙ ap (λ (t : DynamicBuffer × List Region). t.1)
                  (prepare_loop_zero (suc b.max_blocks) b.used b))
            (prepare_loop-Prepared (suc b.max_blocks) b.used _ b (IsValid-HasRoom v) (omega arith)))
      | no w ↦ rw (prepare-whole b size (λ _ _. omega arith)) (
          subst (λ (a : ℕ). Prepared b a size (prepare_loop (suc b.max_blocks) b.used size b))
            (omega (
              arith,
              end_pred b.block_size b.used b.write_offset u,
              mul_pred b.block_size b.used u,
              v.written u,
            ))
            (prepare_loop-Prepared (suc b.max_blocks) b.used size b (IsValid-HasRoom v)
              (omega arith)))
    ]
  ]
]
