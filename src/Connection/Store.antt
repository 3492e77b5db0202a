-- ===== src/Connection/Store.antt =====
-- Objects by their numbers.
use ws_streaming.Prelude.{ℕ, ◌≡◌, ◌≢◌, ◌==◌, if◌then◌else◌, arith}

module _ {A : Type 0} where
  unfoldable pub put : (ℕ → A) → ℕ → A → ℕ → A
  put f n a k = if k == n then a else f k

  pub put-at : (f : ℕ → A) (n : ℕ) (a : A) → put f n a n ≡ a
  unfolding put
  put-at f n a = ground arith

  pub put-off : (f : ℕ → A) (n k : ℕ) (a : A) → k ≢ n → put f n a k ≡ f k
  unfolding put
  put-off f n k a h = ground arith
