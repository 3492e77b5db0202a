-- ===== src/Buffer/Gather.antt =====
-- `data` describes the bytes at the front, in at most `max_buffers` pieces.
use mathlib.Core.Path.{ap₂}
use native.Mathlib.Decide.{dec_lt}
use ws_streaming.Prelude.{
  ℕ, ◌+◌, ◌-◌, ◌≤◌, ◌<◌, ◌≡◌, refl, sym, ap, ◌∙◌, List, [], ◌∷◌, ◌++◌, true, false, inl, inr, arith,
  length, take, drop, length-drop, ◌==◌, ltb, if◌then◌else◌, drop-take, take-append, take_all,
  take_zero, drop_all, drop-append_le, append_assoc, drop_zero, take-append_le, append-nil,
  zero-or-pos,
}
use ws_streaming.Buffer.Copy.{Block}
use ws_streaming.Buffer.Memory.{flat, Sized}
use ws_streaming.Buffer.Invariant.{IsValid, contents, end_at, end_zero, end_one, end_more}
use ws_streaming.Buffer.{DynamicBuffer, gather, buffers, max_buffers}

module _ (b : DynamicBuffer) (v : IsValid b) where
  abbrev begin : ℕ → ℕ
  begin i = if i == 0 then b.read_offset else 0

  -- The contents from block `i` on, where `rest` are the blocks from there.
  abbrev from : List Block → ℕ → List ℕ
  from rest i = drop (begin i) (take (end_at b.block_size (b.used - i) b.write_offset) (flat rest))

  record Described (rest : List Block) (i room : ℕ) : Type 0 where
    tail : List ℕ
    split : from rest i ≡ flat (gather b rest i room) ++ tail
    whole : b.used - i ≤ room → tail ≡ []

  from_done : (rest : List Block) (i : ℕ) → b.used ≤ i → from rest i ≡ []
  from_done rest i h =
      ap (drop (begin i))
        (take_zero _ (flat rest) (end_zero b.block_size (b.used - i) b.write_offset (omega arith)))
      ∙ drop_all (begin i) [] (omega arith)

  begin-le : (i : ℕ) → i < b.used → begin i ≤ b.block_size
  begin-le i h = ground (arith, v)

  from_last :
      (block : Block) (rest : List Block) (i : ℕ)
      → b.used - i ≡ 1
      → length block ≡ b.block_size
      → from (block ∷ rest) i ≡ take (b.write_offset - begin i) (drop (begin i) block)
  from_last block rest i h s =
      ap (drop (begin i)) (
        ap (λ (k : ℕ). take k (block ++ flat rest))
          (end_one b.block_size (b.used - i) b.write_offset h)
        ∙ take-append_le b.write_offset block (flat rest)
            (omega (arith, s, (v.written (omega arith)).1)))
      ∙ drop-take (begin i) b.write_offset block

  from_full :
      (block : Block) (rest : List Block) (i : ℕ)
      → 2 ≤ b.used - i
      → length block ≡ b.block_size
      → from (block ∷ rest) i
        ≡ take (b.block_size - begin i) (drop (begin i) block) ++ from rest (i + 1)
  from_full block rest i h s =
      let n = b.block_size in
      let e = end_at n (b.used - i - 1) b.write_offset in
      let le : begin i ≤ length block = omega (arith, s, begin-le i (omega arith)) in
      let zero_begin : begin (i + 1) ≡ 0 = ground arith in
      ap (drop (begin i)) (
        ap (λ (k : ℕ). take k (block ++ flat rest)) (end_more n (b.used - i) b.write_offset h)
        ∙ take-append (n + e) block (flat rest)
        ∙ ap₂ ◌++◌ (take_all (n + e) block (omega (arith, s))) (
            ap (λ (k : ℕ). take k (flat rest)) {x = n + e - length block} {y = e}
              (omega (arith, s))))
      ∙ drop-append_le (begin i) block (take e (flat rest)) le
      ∙ ap₂ ◌++◌
          (sym (
            take_all (n - begin i) (drop (begin i) block)
              (omega (arith, s, length-drop (begin i) block))))
          (ap (λ (k : ℕ). take (end_at n k b.write_offset) (flat rest)) {x = b.used - i - 1}
              {y = b.used - (i + 1)} (omega arith)
            ∙ sym (drop_zero (begin (i + 1)) _ zero_begin))

  gather_done : (rest : List Block) (i room : ℕ) → b.used ≤ i → gather b rest i room ≡ []
  unfolding gather
  gather_done [] i room h = refl
  gather_done (block ∷ rest) i room h = ground arith

  gather_full :
      (block : Block) (rest : List Block) (i room : ℕ)
      → 2 ≤ b.used - i
      → 0 < room
      → gather b (block ∷ rest) i room
        ≡ take (b.block_size - begin i) (drop (begin i) block) ∷ gather b rest (i + 1) (room - 1)
  unfolding gather
  gather_full block rest i room h r =
      let here : ltb i b.used ≡ true = ground arith in
      let inner : (i == b.used - 1) ≡ false = ground arith in
      let filled : ltb (begin i) b.block_size ≡ true = ground (arith, v) in
      let space : ltb 0 room ≡ true = ground arith in rw (here, space, inner, filled)

  gather_last :
      (block : Block) (rest : List Block) (i room : ℕ)
      → b.used - i ≡ 1
      → 0 < room
      → gather b (block ∷ rest) i room
        ≡ take (b.write_offset - begin i) (drop (begin i) block) ∷ gather b rest (i + 1) (room - 1)
  unfolding gather
  gather_last block rest i room h r =
      let here : ltb i b.used ≡ true = ground arith in
      let last : (i == b.used - 1) ≡ true = ground arith in
      let filled : ltb (begin i) b.write_offset ≡ true = ground (arith, v) in
      let space : ltb 0 room ≡ true = ground arith in rw (here, space, last, filled)

  gather-Described :
      (rest : List Block) (i room : ℕ) → Sized b.block_size rest → Described rest i room
  unfolding gather
  gather-Described [] i room s = record {
    tail = [];
    split = ap (drop (begin i)) (take_all _ [] (omega arith)) ∙ drop_all (begin i) [] (omega arith);
    whole = λ h. refl;
  }
  gather-Described (block ∷ rest) i room s = elim (dec_lt i b.used) [
    | no over ↦ record {
      tail = [];
      split = ground (arith, from_done (block ∷ rest) i);
      whole = λ h. refl;
    }
    | yes there ↦ elim (zero-or-pos room) [
      | inl full ↦ record {
        tail = from (block ∷ rest) i;
        split = ground arith;
        whole = λ h. absurd (omega arith);
      }
      | inr more ↦ elim (dec_lt 1 (b.used - i)) [
        | yes two ↦
            let d = gather-Described rest (i + 1) (room - 1) s.1 in
            record {
              tail = d.tail;
              split =
                  from_full block rest i two s.0
                  ∙ ap (λ t. take (b.block_size - begin i) (drop (begin i) block) ++ t) d.split
                  ∙ rw (gather_full block rest i room two more) (sym (append_assoc _ _ d.tail));
              whole = λ h. d.whole (omega arith);
            }
        | no one ↦ record {
          tail = [];
          split =
              from_last block rest i (omega arith) s.0
              ∙ rw
                  (
                    gather_last block rest i room (omega arith) more,
                    gather_done rest (i + 1) (room - 1) (omega arith),
                  )
                  (simp append-nil);
          whole = λ h. refl;
        }
      ]
    ]
  ]

pub buffers-contents :
    (b : DynamicBuffer)
    → IsValid b
    → (tail : List ℕ) × (contents b ≡ flat (buffers b) ++ tail) × (b.used ≤ max_buffers → tail ≡ [])
unfolding buffers
buffers-contents b v =
    let d = gather-Described b v b.blocks 0 max_buffers v.sized in
    (
      d.tail,
      ap
            (λ (k : ℕ).
              drop b.read_offset (take (end_at b.block_size k b.write_offset) (flat b.blocks)))
            {x = b.used} {y = b.used - 0} (omega arith)
          ∙ d.split,
      λ h. d.whole (omega arith),
    )

-- As long as at most 64 blocks are in use, what `data` describes of a valid buffer is its
-- contents.
pub buffers-whole :
    (b : DynamicBuffer) → IsValid b → b.used ≤ max_buffers → flat (buffers b) ≡ contents b
buffers-whole b v h =
    let (tail, split, whole) = buffers-contents b v in
    sym
      (split ∙ ap (λ (t : List ℕ). flat (buffers b) ++ t) (whole h) ∙ append-nil (flat (buffers b)))
