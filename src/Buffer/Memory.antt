-- ===== src/Buffer/Memory.antt =====
-- The blocks as one memory, and what the scattered copy does to it.
use ws_streaming.Prelude.{
  ℕ, zero, suc, ◌+◌, ◌*◌, ◌≤◌, ◌<◌, ◌≡◌, refl, sym, ap, ◌∙◌, List, [], ◌∷◌, ◌++◌, arith, length,
  take, drop, All, length-append, length-take, length-drop, take-append_le, drop-append_le,
  append_assoc, take-append-drop, drop-drop, take-add,
}
use ws_streaming.Buffer.Copy.{Block, Region, buffer_size, splice, write_block, scatter}

abbrev pub flat : List Block → List ℕ
flat [] = []
flat (block ∷ rest) = block ++ flat rest

-- Every block has the same size.
abbrev pub Sized : ℕ → List Block → Type 0
Sized n = All (λ (block : Block). length block ≡ n)

pub length-flat :
    (n : ℕ) (blocks : List Block) → Sized n blocks → length (flat blocks) ≡ length blocks * n
length-flat n [] s = omega arith
length-flat n (block ∷ rest) s =
    omega (arith, length-append block (flat rest), length-flat n rest s.1)

pub flat-append : (xs ys : List Block) → flat (xs ++ ys) ≡ flat xs ++ flat ys
flat-append [] ys = refl
flat-append (block ∷ rest) ys =
    rw (flat-append rest ys) (sym (append_assoc block (flat rest) (flat ys)))

pub Sized-append : (n : ℕ) (xs ys : List Block) → Sized n xs → Sized n ys → Sized n (xs ++ ys)
Sized-append n [] ys s t = t
Sized-append n (block ∷ rest) ys s t = (s.0, Sized-append n rest ys s.1 t)

pub length-splice :
    (m : List ℕ) (a : ℕ) (x : List ℕ) → a + length x ≤ length m → length (splice m a x) ≡ length m
length-splice m a x h = omega (
  arith,
  length-append (take a m) (x ++ drop (a + length x) m),
  length-append x (drop (a + length x) m),
  length-take a m,
  length-drop (a + length x) m,
)

pub splice-nil : (m : List ℕ) (a : ℕ) → splice m a [] ≡ m
splice-nil m a = ap (λ (k : ℕ). take a m ++ drop k m) (omega arith) ∙ take-append-drop a m

splice_front :
    (m rest : List ℕ) (a : ℕ) (x : List ℕ)
    → a + length x ≤ length m
    → splice (m ++ rest) a x ≡ splice m a x ++ rest
splice_front m rest a x h =
    rw (take-append_le a m rest (omega arith), drop-append_le (a + length x) m rest h)
      (simp append_assoc)

splice-cons :
    (c : ℕ) (m : List ℕ) (a : ℕ) (x : List ℕ) → splice (c ∷ m) (suc a) x ≡ c ∷ splice m a x
splice-cons c m a x =
    ap (λ (k : ℕ). c ∷ (take a m ++ (x ++ drop k (c ∷ m)))) {x = suc a + length x}
      {y = suc (a + length x)} (omega arith)

splice_back :
    (m rest : List ℕ) (a k : ℕ) (x : List ℕ)
    → a ≡ length m + k
    → splice (m ++ rest) a x ≡ m ++ splice rest k x
splice_back [] rest a k x e = let e' : a ≡ k = omega arith in ap (λ (t : ℕ). splice rest t x) e'
splice_back (c ∷ m) rest a k x e =
    let e' : a ≡ suc (length m + k) = omega arith in
    ap (λ (t : ℕ). splice (c ∷ (m ++ rest)) t x) e'
    ∙ splice-cons c (m ++ rest) (length m + k) x
    ∙ ap (λ t. c ∷ t) (splice_back m rest (length m + k) k x refl)

-- Two writes, the second where the first ends.
splice-splice :
    (m : List ℕ) (a : ℕ) (x y : List ℕ)
    → a ≤ length m
    → splice (splice m a x) (a + length x) y ≡ splice m a (x ++ y)
splice-splice m a x y h =
    ap (λ t. splice t (a + length x) y) (sym (append_assoc (take a m) x (drop (a + length x) m)))
    ∙ splice_back (take a m ++ x) (drop (a + length x) m) (a + length x) 0 y
        (omega (arith, length-append (take a m) x, length-take a m))
    ∙ ap (λ t. (take a m ++ x) ++ (y ++ t))
        (drop-drop (0 + length y) (a + length x) m
          ∙ ap (λ (k : ℕ). drop k m) {x = a + length x + (0 + length y)} {y = a + length (x ++ y)}
              (omega (arith, length-append x y)))
    ∙ simp append_assoc

pub write_block-flat :
    (n i o : ℕ) (blocks : List Block) (x : List ℕ)
    → Sized n blocks
    → i < length blocks
    → o + length x ≤ n
    → (flat (write_block blocks i o x) ≡ splice (flat blocks) (i * n + o) x)
      × Sized n (write_block blocks i o x)
      × (length (write_block blocks i o x) ≡ length blocks)
write_block-flat n i o [] x s hi ho = absurd (omega arith)
write_block-flat n zero o (block ∷ rest) x s hi ho = (
  sym (splice_front block (flat rest) o x (omega arith))
      ∙ ap (λ (t : ℕ). splice (block ++ flat rest) t x) (omega arith),
  (length-splice block o x (omega arith) ∙ s.0, s.1),
  refl,
)
write_block-flat n (suc i) o (block ∷ rest) x s hi ho =
    let (f, t, l) = write_block-flat n i o rest x s.1 (omega arith) ho in
    (
      ap (λ t. block ++ t) f
          ∙ sym (splice_back block (flat rest) (suc i * n + o) (i * n + o) x (omega arith)),
      (s.0, t),
      ap suc l,
    )

pub block_end : (i o k n count : ℕ) → o + k ≤ n → i < count → i * n + o + k ≤ count * n
block_end i o k n count h p = grind arith

-- Regions that follow one another in memory, from address `a` on.
abbrev pub Consecutive : ℕ → ℕ → ℕ → List Region → Type 0
Consecutive n count a [] = Unit {0}
Consecutive n count a (r ∷ rs) =
    (r.block * n + r.offset ≡ a)
    × (r.offset + r.size ≤ n)
    × (r.block < count)
    × Consecutive n count (a + r.size) rs

-- The copy into consecutive regions is one write of the bytes that they hold.
pub scatter-flat :
    (n a : ℕ) (blocks : List Block) (rs : List Region) (source : List ℕ)
    → Sized n blocks
    → Consecutive n (length blocks) a rs
    → buffer_size rs ≤ length source
    → a ≤ length (flat blocks)
    → (flat (scatter blocks rs source) ≡ splice (flat blocks) a (take (buffer_size rs) source))
      × Sized n (scatter blocks rs source)
      × (length (scatter blocks rs source) ≡ length blocks)
scatter-flat n a blocks [] source s c h ha = (sym (splice-nil (flat blocks) a), s, refl)
scatter-flat n a blocks (r ∷ rs) source s (at, within, there, more) h ha =
    let x = take r.size source in
    let lx : length x ≡ r.size = omega (arith, length-take r.size source) in
    let (f, t, l) = write_block-flat n r.block r.offset blocks x s there (omega arith) in
    let (f', t', l') =
      scatter-flat n (a + r.size) (write_block blocks r.block r.offset x) rs (drop r.size source) t
        (rw l more) (omega (arith, length-drop r.size source))
        (omega (
          arith,
          length-flat n _ t,
          ap (λ (k : ℕ). k * n) l,
          block_end r.block r.offset r.size n (length blocks) within there,
        )) in
    (
      f'
          ∙ ap (λ m. splice m (a + r.size) (take (buffer_size rs) (drop r.size source)))
              (f ∙ ap (λ (k : ℕ). splice (flat blocks) k x) at)
          ∙ ap
              (λ (k : ℕ).
                splice (splice (flat blocks) a x) (a + k)
                  (take (buffer_size rs) (drop r.size source)))
              (sym lx)
          ∙ splice-splice (flat blocks) a x _ ha
          ∙ ap (splice (flat blocks) a) (sym (take-add r.size (buffer_size rs) source)),
      t',
      l' ∙ l,
    )
