-- ===== src/Signals/LinearTable.antt =====
-- src/detail/linear_table.cpp and include/ws-streaming/detail/linear_table.hpp: the linear rule of a
-- domain signal. An `int64_t` is its representation modulo 2 ^ 64.
use Prim.Native.String.{String}
use ws_streaming.Prelude.{
  ℕ, ◌+◌, ◌-◌, ◌*◌, ◌%◌, ◌^◌, ◌≡◌, Option, none, some, arith, ap, if◌then◌else◌,
}
use ws_streaming.Signals.Ids.{is_empty}

abbrev pub word : ℕ
word = 2 ^ 64

-- `+`, `-` and `*` on `int64_t`.
abbrev pub add : ℕ → ℕ → ℕ
add a b = (a + b) % word

abbrev pub sub : ℕ → ℕ → ℕ
sub a b = (a + (word - b % word)) % word

abbrev pub mul : ℕ → ℕ → ℕ
mul a b = a * b % word

abbrev pub value_or : Option ℕ → ℕ → ℕ
value_or none n = n
value_or (some m) n = m

pub record LinearTable : Type 0 where
  pub id : String
  pub index : ℕ
  pub value : ℕ
  pub delta : ℕ
  pub driven_index : ℕ

-- What the accessors of `metadata` give: `table_id`, `linear_start_delta` and `value_index`.
pub record Metadata : Type 0 where
  pub table_id : String
  pub start : Option ℕ
  pub delta : Option ℕ
  pub value_index : Option ℕ

-- `update(const metadata&)`
unfoldable pub update : LinearTable → Metadata → LinearTable
update t m = record t {
  id = if is_empty m.table_id then t.id else m.table_id;
  value = value_or m.start t.value;
  delta = value_or m.delta t.delta;
  index = value_or m.value_index t.index;
  driven_index = value_or m.value_index t.driven_index;
}

unfoldable pub linear_table : Metadata → LinearTable
unfolding update
linear_table m = update (record { id = ""; index = 0; value = 0; delta = 0; driven_index = 0 }) m

-- `update(const linear_payload&)`, with the payload's fields.
unfoldable pub update_payload : LinearTable → ℕ → ℕ → LinearTable
update_payload t sample_index payload_value = record t {
  index = sample_index;
  driven_index = sample_index;
  value = payload_value;
}

unfoldable pub driven_value : LinearTable → ℕ
driven_value t = add t.value (mul t.delta (sub t.driven_index t.index))

unfoldable pub value_at : LinearTable → ℕ → ℕ
value_at t i = add t.value (mul t.delta (sub i t.index))

unfoldable pub set : LinearTable → ℕ → ℕ → LinearTable
set t i v = record t { index = i; value = v; driven_index = i }

unfoldable pub drive_to : LinearTable → ℕ → LinearTable
drive_to t i = record t { driven_index = i }

sub-add : (i k : ℕ) → sub (add i k) i ≡ k % word
sub-add i k = omega arith

pub add-anchored : (x d i : ℕ) → add x (mul d (sub i i)) ≡ x % word
add-anchored x d i =
    let z : d * sub i i ≡ d * 0 = ap (λ (n : ℕ). d * n) {x = sub i i} {y = 0} (omega arith) in
    omega (arith, z)

-- A table anchored at an index, by `set` or by a payload, and driven k samples further has the
-- anchored value plus k times the delta, modulo 2^64, as its driven value and as its value at
-- that index.
pub drive_to-set :
    (t : LinearTable) (i v k : ℕ)
    → let expected = add v (mul t.delta (k % word)) in
      (driven_value (drive_to (set t i v) (add i k)) ≡ expected)
      × (driven_value (drive_to (update_payload t i v) (add i k)) ≡ expected)
      × (value_at (set t i v) (add i k) ≡ expected)
unfolding driven_value value_at set update_payload drive_to
drive_to-set t i v k = let e = ap (λ (n : ℕ). add v (mul t.delta n)) (sub-add i k) in (e, e, e)

-- Metadata that gives an index makes the driven value the new start, or the old value if it gives
-- no start, modulo 2^64.
pub update-driven :
    (t : LinearTable) (m : Metadata) (i : ℕ)
    → m.value_index ≡ some i
    → driven_value (update t m) ≡ value_or m.start t.value % word
unfolding update driven_value
update-driven t m i h = rw h (add-anchored (value_or m.start t.value) (value_or m.delta t.delta) i)
