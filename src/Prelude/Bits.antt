-- ===== src/Prelude/Bits.antt =====
-- Laws of `bit_and`, `bit_or` and `bit_xor` at variables, by recursion on the binary digits.
use Prim.Native.Nat.{
  ℕ, zero, suc, ◌+◌, ◌-◌, ◌*◌, ◌/◌, ◌%◌, ◌^◌, ◌≤◌, ◌<◌, min, max, bit_and, bit_or, bit_xor, digits,
  bitwise, differ, bit_and-bitwise, bit_or-bitwise, bit_xor-bitwise,
}
use mathlib.Core.Path.{◌≡◌, refl, ◌∙◌, ap}
use native.Mathlib.Omega.{arith}
use native.Mathlib.Nat.{le_refl, pow-suc}

module _ (at_zero : ℕ → ℕ) (digit : ℕ → ℕ → ℕ) where
  -- One unit of fuel more than is needed changes nothing, and so do any number of them.
  digits_more :
      (x y fuel : ℕ)
      → x ≤ fuel
      → digits at_zero digit (suc fuel) x y ≡ digits at_zero digit fuel x y
  digits_more zero y zero le = refl
  digits_more zero y (suc fuel) le = refl
  digits_more (suc x) y (suc fuel) le = rw (digits_more (suc x / 2) (y / 2) fuel (omega arith))
  digits_more (suc x) y zero le = absurd (omega arith)

  digits_spare :
      (x y fuel spare : ℕ)
      → x ≤ fuel
      → digits at_zero digit (spare + fuel) x y ≡ digits at_zero digit fuel x y
  digits_spare x y fuel zero le =
      ap (λ (t : ℕ). digits at_zero digit t x y) {x = 0 + fuel} {y = fuel} (omega arith)
  digits_spare x y fuel (suc spare) le =
      ap (λ (t : ℕ). digits at_zero digit t x y) {x = suc spare + fuel} {y = suc (spare + fuel)}
        (omega arith)
      ∙ digits_more x y (spare + fuel) (omega arith)
      ∙ digits_spare x y fuel spare le

  lowest_digit :
      (x y : ℕ)
      → bitwise at_zero digit (suc x) y
        ≡ bitwise at_zero digit (suc x / 2) (y / 2) * 2 + digit (suc x % 2) (y % 2)
  lowest_digit x y =
      let half = suc x / 2 in
      let exact =
        ap (λ (t : ℕ). digits at_zero digit t half (y / 2)) {x = x - half + half} {y = x}
          (omega arith) in
      omega (arith, exact, digits_spare half (y / 2) half (x - half) (le_refl half))

bit_and_step : (x y : ℕ) → bit_and x y ≡ bit_and (x / 2) (y / 2) * 2 + min (x % 2) (y % 2)
bit_and_step (suc x) y = simp bit_and-bitwise (lowest_digit (λ t. 0) min x y)
bit_and_step zero y = simp bit_and-bitwise (omega arith)

bit_or_step : (x y : ℕ) → bit_or x y ≡ bit_or (x / 2) (y / 2) * 2 + max (x % 2) (y % 2)
bit_or_step (suc x) y = simp bit_or-bitwise (lowest_digit (λ t. t) max x y)
bit_or_step zero y = simp bit_or-bitwise (omega arith)

zero-bit_or : (b : ℕ) → bit_or 0 b ≡ b
zero-bit_or b = simp bit_or-bitwise refl

bit_or-zero_fuel : (n a : ℕ) → a ≤ n → bit_or a 0 ≡ a
bit_or-zero_fuel n zero h = refl
bit_or-zero_fuel zero (suc a) h = absurd (omega arith)
bit_or-zero_fuel (suc n) (suc a) h =
    omega (arith, bit_or_step (suc a) 0, bit_or-zero_fuel n (suc a / 2) (omega arith))

bit_or-zero : (a : ℕ) → bit_or a 0 ≡ a
bit_or-zero a = bit_or-zero_fuel a a (le_refl a)

-- Fields that do not overlap are joined by `|` as by `+`, the higher one first or last.
pub bit_or_high : (k a b : ℕ) → b < 2 ^ k → bit_or (a * 2 ^ k) b ≡ a * 2 ^ k + b
bit_or_high zero a b h = elim_zero b (omega arith)
  where
    elim_zero : (c : ℕ) → c ≡ 0 → bit_or (a * 1) c ≡ a * 1 + c
    elim_zero c e = rw e (bit_or-zero (a * 1) ∙ omega arith)
bit_or_high (suc k) a b h = omega (
  arith,
  bit_or_step (a * 2 ^ suc k) b,
  bit_or_high k a (b / 2) (omega (arith, pow-suc 2 k)),
  ap (λ (t : ℕ). bit_or t (b / 2)) {x = a * 2 ^ suc k / 2} {y = a * 2 ^ k}
      (omega (arith, pow-suc 2 k, ap (λ (t : ℕ). a * t) (pow-suc 2 k))),
  ap (λ (t : ℕ). a * t) (pow-suc 2 k),
)

pub bit_or_low : (k a b : ℕ) → b < 2 ^ k → bit_or b (a * 2 ^ k) ≡ b + a * 2 ^ k
bit_or_low zero a b h = elim_zero b (omega arith)
  where
    elim_zero : (c : ℕ) → c ≡ 0 → bit_or c (a * 1) ≡ c + a * 1
    elim_zero c e = rw e (zero-bit_or (a * 1) ∙ omega arith)
bit_or_low (suc k) a b h = omega (
  arith,
  bit_or_step b (a * 2 ^ suc k),
  bit_or_low k a (b / 2) (omega (arith, pow-suc 2 k)),
  ap (λ (t : ℕ). bit_or (b / 2) t) {x = a * 2 ^ suc k / 2} {y = a * 2 ^ k}
      (omega (arith, pow-suc 2 k, ap (λ (t : ℕ). a * t) (pow-suc 2 k))),
  ap (λ (t : ℕ). a * t) (pow-suc 2 k),
)

bit_and-nothing : (fuel x : ℕ) → x ≤ fuel → bit_and x 0 ≡ 0
bit_and-nothing zero (suc x) le = absurd (omega arith)
bit_and-nothing (suc fuel) (suc x) le =
    omega (arith, bit_and-nothing fuel (suc x / 2) (omega arith), bit_and_step (suc x) 0)
bit_and-nothing fuel zero le = refl

bit_and_0x1 : (x : ℕ) → bit_and x 1 ≡ x % 2
bit_and_0x1 x = omega (arith, bit_and-nothing (x / 2) (x / 2) (le_refl _), bit_and_step x 1)

bit_and_0x3 : (x : ℕ) → bit_and x 3 ≡ x % 4
bit_and_0x3 x = omega (arith, bit_and_0x1 (x / 2), bit_and_step x 3)

bit_and_0x7 : (x : ℕ) → bit_and x 7 ≡ x % 8
bit_and_0x7 x = omega (arith, bit_and_0x3 (x / 2), bit_and_step x 7)

-- The masks of the wire formats.
pub bit_and_0xf : (a : ℕ) → bit_and a 0xf ≡ a % 16
bit_and_0xf a = omega (arith, bit_and_step a 0xf, bit_and_0x7 (a / 2))

pub bit_and_0x7f : (a : ℕ) → bit_and a 0x7f ≡ a % 128
bit_and_0x7f a = omega (
  arith,
  bit_and_step a 0x7f,
  bit_and_step (a / 2) 0x3f,
  bit_and_step (a / 2 / 2) 0x1f,
  bit_and_0xf (a / 2 / 2 / 2),
)

bit_and_shifted : (a : ℕ) → bit_and a 0x10 ≡ a / 16 % 2 * 16
bit_and_shifted a = omega (
  arith,
  bit_and_step a 0x10,
  bit_and_step (a / 2) 8,
  bit_and_step (a / 2 / 2) 4,
  bit_and_step (a / 2 / 2 / 2) 2,
  bit_and_0x1 (a / 2 / 2 / 2 / 2),
)

pub bit_and_0x80 : (a : ℕ) → bit_and a 0x80 ≡ a / 128 % 2 * 128
bit_and_0x80 a = omega (
  arith,
  bit_and_step a 0x80,
  bit_and_step (a / 2) 0x40,
  bit_and_step (a / 2 / 2) 0x20,
  bit_and_shifted (a / 2 / 2 / 2),
)

pub bit_and_0xf0 : (a : ℕ) → bit_and a 0xf0 ≡ a / 16 % 16 * 16
bit_and_0xf0 a = omega (
  arith,
  bit_and_step a 0xf0,
  bit_and_step (a / 2) 0x78,
  bit_and_step (a / 2 / 2) 0x3c,
  bit_and_step (a / 2 / 2 / 2) 0x1e,
  bit_and_0xf (a / 2 / 2 / 2 / 2),
)

bit_xor_step : (a b : ℕ) → bit_xor a b ≡ bit_xor (a / 2) (b / 2) * 2 + differ (a % 2) (b % 2)
bit_xor_step zero b = simp bit_xor-bitwise (omega arith)
bit_xor_step (suc a) b = simp bit_xor-bitwise (lowest_digit (λ t. t) differ a b)

differ_bits : (x y : ℕ) → x < 2 → y < 2 → (differ x y < 2) × (differ (differ x y) y ≡ x)
differ_bits zero zero p q = omega arith
differ_bits zero (suc zero) p q = omega arith
differ_bits (suc zero) zero p q = omega arith
differ_bits (suc zero) (suc zero) p q = omega arith
differ_bits (suc (suc x)) y p q = absurd (omega arith)
differ_bits zero (suc (suc y)) p q = absurd (omega arith)
differ_bits (suc zero) (suc (suc y)) p q = absurd (omega arith)

bit_xor_parts :
    (a b : ℕ)
    → (bit_xor a b / 2 ≡ bit_xor (a / 2) (b / 2)) × (bit_xor a b % 2 ≡ differ (a % 2) (b % 2))
bit_xor_parts a b =
    omega (arith, bit_xor_step a b, (differ_bits (a % 2) (b % 2) (omega arith) (omega arith)).0)

bit_xor_twice_fuel : (n a b : ℕ) → a ≤ n → b ≤ n → bit_xor (bit_xor a b) b ≡ a
bit_xor_twice_fuel zero zero zero p q = refl
bit_xor_twice_fuel zero (suc a) b p q = absurd (omega arith)
bit_xor_twice_fuel zero zero (suc b) p q = absurd (omega arith)
bit_xor_twice_fuel (suc n) a b p q =
    let (high, low) = bit_xor_parts a b in
    omega (
      arith,
      bit_xor_step (bit_xor a b) b,
      ap (λ (t : ℕ). bit_xor t (b / 2)) high,
      ap (λ (t : ℕ). differ t (b % 2)) low,
      (differ_bits (a % 2) (b % 2) (omega arith) (omega arith)).1,
      bit_xor_twice_fuel n (a / 2) (b / 2) (omega arith) (omega arith),
    )

-- A key applied twice is no key.
pub bit_xor_twice : (a b : ℕ) → bit_xor (bit_xor a b) b ≡ a
bit_xor_twice a b = bit_xor_twice_fuel (a + b) a b (omega arith) (omega arith)

-- A field is joined below a value whose low bits are clear.
pub bit_or_join : (k a x y : ℕ) → x ≡ a * 2 ^ k → y < 2 ^ k → bit_or x y ≡ a * 2 ^ k + y
bit_or_join k a x y e h = rw e (bit_or_high k a y h)

-- A field is joined above a value that is small enough.
pub bit_or_above : (k a x y : ℕ) → y ≡ a * 2 ^ k → x < 2 ^ k → bit_or x y ≡ x + a * 2 ^ k
bit_or_above k a x y e h = rw e (bit_or_low k a x h)
