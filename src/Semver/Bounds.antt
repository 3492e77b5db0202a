-- ===== src/Semver/Bounds.antt =====
-- What `try_parse` accepts.
use ws_streaming.Prelude.{ℕ, ◌^◌, ◌<◌, ◌≡◌, refl, List, Option, none, some, arith, take, drop, ◌+◌}
use ws_streaming.Semver.{Semver, try_parse, component, find, ◌>>=◌}

component_bound : (s : List ℕ) (n : ℕ) → component s ≡ some n → n < 2 ^ 32
unfolding component
component_bound s n h = ground arith

-- A step that has a result had one before it.
bind_some :
    {A B : Type 0} (m : Option A) (f : A → Option B) (b : B)
    → (m >>= f) ≡ some b
    → (a : A) × (m ≡ some a) × (f a ≡ some b)
bind_some none f b h = absurd cc
bind_some (some a) f b h = (a, refl, h)

abbrev built : ℕ → ℕ → ℕ → Semver
built major minor revision = record { major = major; minor = minor; revision = revision }

-- Each component of a version that `try_parse` returns is below 2^32.
pub try_parse_bounds :
    (s : List ℕ) (v : Semver)
    → try_parse s ≡ some v
    → (v.major < 2 ^ 32) × (v.minor < 2 ^ 32) × (v.revision < 2 ^ 32)
unfolding try_parse
try_parse_bounds s v h =
    let (a, _, h1) = bind_some (find 46 s) _ v h in
    let (b, _, h2) = bind_some (find 46 (drop (a + 1) s)) _ v h1 in
    let (major, e, h3) = bind_some (component (take a s)) _ v h2 in
    let (minor, e', h4) = bind_some (component (take b (drop (a + 1) s))) _ v h3 in
    let (revision, e'', h5) =
      bind_some (component (drop (b + 1) (drop (a + 1) s))) (λ (r : ℕ). some (built major minor r))
        v h4 in
    ground (
      arith,
      component_bound (take a s) major e,
      component_bound (take b (drop (a + 1) s)) minor e',
      component_bound (drop (b + 1) (drop (a + 1) s)) revision e'',
    )
