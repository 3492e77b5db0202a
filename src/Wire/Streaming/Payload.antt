-- ===== src/Wire/Streaming/Payload.antt =====
-- `linear_payload` of include/ws-streaming/detail/streaming_protocol.hpp as it lies in a packet: two
-- 64-bit words in little-endian order, which is also the order of the host.
use native.Mathlib.Nat.{pow-suc}
use mathlib.Core.Path.{ap₂}
use ws_streaming.Prelude.{
  ℕ, zero, suc, ◌+◌, ◌*◌, ◌/◌, ◌%◌, ◌^◌, ◌<◌, ◌≡◌, refl, List, [], ◌∷◌, ◌++◌, length, take, drop,
  arith,
}

pub record LinearPayload : Type 0 where
  pub sample_index : ℕ
  pub value : ℕ

-- `native_to_little`: the bytes of a word of `n` bytes.
unfoldable pub native_to_little : ℕ → ℕ → List ℕ
native_to_little zero x = []
native_to_little (suc n) x = x % 256 ∷ native_to_little n (x / 256)

-- The word that a host with that order reads from its bytes.
unfoldable pub read_word : List ℕ → ℕ
read_word [] = 0
read_word (b ∷ bs) = b % 256 + 256 * read_word bs

unfoldable pub payload_bytes : LinearPayload → List ℕ
unfolding native_to_little
payload_bytes p = native_to_little 8 p.sample_index ++ native_to_little 8 p.value

-- `static_cast<const linear_payload *>` on data of at least 16 bytes.
unfoldable pub read_payload : List ℕ → LinearPayload
unfolding read_word
read_payload bytes = record {
  sample_index = read_word (take 8 bytes);
  value = read_word (take 8 (drop 8 bytes));
}

read-native_to_little : (n x : ℕ) → x < 256 ^ n → read_word (native_to_little n x) ≡ x
unfolding native_to_little read_word
read-native_to_little zero x h = omega arith
read-native_to_little (suc n) x h =
    let power : 256 ^ suc n ≡ 256 ^ n * 256 = pow-suc 256 n in
    omega (arith, read-native_to_little n (x / 256) (omega (arith, power)))

-- A linear payload of two 64-bit words takes 16 bytes, from which the same words are read.
pub read-payload_bytes :
    (p : LinearPayload)
    → p.sample_index < 2 ^ 64
    → p.value < 2 ^ 64
    → (read_payload (payload_bytes p) ≡ p) × (length (payload_bytes p) ≡ 16)
unfolding payload_bytes read_payload native_to_little
read-payload_bytes p i v = (
  ap₂ (λ (a b : ℕ). record { sample_index = a; value = b })
      (read-native_to_little 8 p.sample_index i) (read-native_to_little 8 p.value v),
  refl,
)
