-- ===== src/Semver.antt =====
-- Version numbers: src/detail/semver.cpp and include/ws-streaming/detail/semver.hpp. A string is the
-- list of its characters' codes. `unsigned` has 32 bits and `unsigned long` 64.
pub mod Order
pub mod Bounds
use ws_streaming.Prelude.{
  ℕ, zero, suc, ◌+◌, ◌-◌, ◌*◌, ◌%◌, ◌^◌, List, [], ◌∷◌, Bool, true, false, ◌&&◌, ◌||◌, not, Option,
  none, some, ltb, leb, ◌==◌, if◌then◌else◌, take, drop,
}

pub record Semver : Type 0 where
  pub major : ℕ
  pub minor : ℕ
  pub revision : ℕ

unfoldable pub eq : Semver → Semver → Bool
eq l r = l.major == r.major && l.minor == r.minor && l.revision == r.revision

unfoldable pub ne : Semver → Semver → Bool
unfolding eq
ne l r = not (eq l r)

unfoldable pub lt : Semver → Semver → Bool
lt l r =
    if ltb l.major r.major
    then true
    else if ltb r.major l.major
    then false
    else if ltb l.minor r.minor
    then true
    else if ltb r.minor l.minor
    then false
    else ltb l.revision r.revision

unfoldable pub le : Semver → Semver → Bool
le l r = eq l r || lt l r

unfoldable pub gt : Semver → Semver → Bool
gt l r = ne l r && not (lt l r)

unfoldable pub ge : Semver → Semver → Bool
ge l r = eq l r || gt l r

-- `std::string::find`; `npos` is `none`.
find : ℕ → List ℕ → Option ℕ
find c [] = none
find c (x ∷ xs) =
    let rest = find c xs in
    if x == c then some 0 else elim rest [ none ↦ none | some i ↦ some (i + 1) ]

-- The characters of `c_str` before the terminating zero.
c_str : List ℕ → List ℕ
c_str [] = []
c_str (x ∷ xs) = let rest = c_str xs in if x == 0 then [] else x ∷ rest

-- What `strtoul` returns, whether it sets `errno`, and the characters at `end`.
record Parsed : Type 0 where
  value : ℕ
  range_error : Bool
  rest : List ℕ

abbrev is_space : ℕ → Bool
is_space c = c == 32 || (leb 9 c && leb c 13)

abbrev is_digit : ℕ → Bool
is_digit c = leb 48 c && leb c 57

skip_space : List ℕ → List ℕ
skip_space [] = []
skip_space (x ∷ xs) = let rest = skip_space xs in if is_space x then rest else x ∷ xs

-- The sign, and what follows it.
sign : List ℕ → Bool × List ℕ
sign [] = (false, [])
sign (x ∷ xs) = if x == 45 then (true, xs) else if x == 43 then (false, xs) else (false, x ∷ xs)

digits : ℕ → List ℕ → ℕ × List ℕ
digits value [] = (value, [])
digits value (x ∷ xs) =
    let more = digits (value * 10 + (x - 48)) xs in if is_digit x then more else (value, x ∷ xs)

starts_with_digit : List ℕ → Bool
starts_with_digit [] = false
starts_with_digit (x ∷ xs) = is_digit x

-- `strtoul` in base 10.
strtoul : List ℕ → Parsed
unfolding skip_space sign digits starts_with_digit
strtoul s =
    let (negative, t) = sign (skip_space s) in
    let (value, rest) = digits 0 t in
    if not (starts_with_digit t)
    then record { value = 0; range_error = false; rest = s }
    else if leb (2 ^ 64) value
    then record { value = 2 ^ 64 - 1; range_error = true; rest = rest }
    else record {
      value = if negative then (2 ^ 64 - value) % 2 ^ 64 else value;
      range_error = false;
      rest = rest;
    }

at_end : List ℕ → Bool
at_end [] = true
at_end (x ∷ xs) = false

-- One component, with the tests that follow its call of `strtoul`.
component : List ℕ → Option ℕ
unfolding strtoul c_str at_end
component s =
    let p = strtoul (c_str s) in
    if p.range_error || not (at_end p.rest) || ltb (2 ^ 32 - 1) p.value then none else some p.value

infixl 1 ◌>>=◌
abbrev ◌>>=◌ {ℓ κ} : {A : Type ℓ} {B : Type κ} → Option A → (A → Option B) → Option B
none >>= f = none
some a >>= f = f a

unfoldable pub try_parse : List ℕ → Option Semver
unfolding find component
try_parse str = do
  a ← find 46 str
  b ← find 46 (drop (a + 1) str)
  major ← component (take a str)
  minor ← component (take b (drop (a + 1) str))
  revision ← component (drop (b + 1) (drop (a + 1) str))
  some (record { major = major; minor = minor; revision = revision })
