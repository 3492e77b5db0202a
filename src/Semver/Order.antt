-- ===== src/Semver/Order.antt =====
-- The comparisons of `semver` are one order.
use ws_streaming.Prelude.{◌<◌, ◌≡◌, ◌⊎◌, ◌↔◌, true, ◌||◌, not, arith}
use ws_streaming.Semver.{Semver, eq, ne, lt, le, gt, ge}

-- The lexicographic order on the three components.
pub Before : Semver → Semver → Type 0
Before l r =
    (l.major < r.major)
    ⊎ ((l.major ≡ r.major)
        × ((l.minor < r.minor) ⊎ ((l.minor ≡ r.minor) × (l.revision < r.revision))))

-- `operator<` is the lexicographic order on major, minor and revision; `>` is its converse, `<=`
-- and `>=` the negations, and `!=` holds when either is less.
pub comparisons :
    (l r : Semver)
    → ((lt l r ≡ true) ↔ Before l r)
      × (gt l r ≡ lt r l)
      × (le l r ≡ not (lt r l))
      × (ge l r ≡ not (lt l r))
      × (ne l r ≡ (lt l r || lt r l))
unfolding Before lt le gt ge ne eq
comparisons l r =
    ((λ h. ground arith, λ h. ground arith), ground arith, ground arith, ground arith, ground arith)

-- `operator<` is transitive.
pub lt_transitive : (a b c : Semver) → lt a b ≡ true → lt b c ≡ true → lt a c ≡ true
unfolding lt
lt_transitive a b c h k = ground arith
