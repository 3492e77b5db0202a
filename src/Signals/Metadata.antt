-- ===== src/Signals/Metadata.antt =====
-- What the accessors of src/metadata.cpp give of a JSON object, and the names of the rules and of
-- the data types that the code compares with. The ticks of a TCP signal rate are computed.
use Prim.Native.String.{String}
use ws_streaming.Prelude.{ℕ, ◌+◌, ◌*◌, ◌/◌, ◌%◌, ◌^◌, Option, none, some, if◌then◌else◌, ◌==◌}
use ws_streaming.Signals.LinearTable

-- `linear` are the table id, the start, the delta and the value index.
pub record Metadata : Type 0 where
  pub rule : String
  pub data_type : String
  pub sample_size : ℕ
  pub linear : LinearTable.Metadata
  pub open linear use {table_id, value_index}

abbrev pub linear_rule : String
linear_rule = "linear"

abbrev pub explicit_rule : String
explicit_rule = "explicit"

abbrev pub binary_t : String
binary_t = "binary"

-- The fields `delta` and `samples` of a TCP signal rate.
pub record SignalRate : Type 0 where
  pub seconds : ℕ
  pub fraction : ℕ
  pub sub_fraction : ℕ
  pub samples : ℕ

-- `none` where the division by 0 samples or by a denominator of 0 throws. The source's fraction with
-- the term `half`, which has twice the denominator below it, is written over one denominator.
unfoldable pub tcp_signal_rate_ticks : SignalRate → ℕ → ℕ → Option ℕ
tcp_signal_rate_ticks r numerator denominator =
    let ticks = (r.seconds * 2 ^ 32 + r.fraction) * 2 ^ 32 + r.sub_fraction in
    let below = 2 ^ 64 * r.samples * numerator * (denominator * 2) in
    let above = ticks * denominator * (denominator * 2) + 2 ^ 64 * numerator * r.samples in
    if below == 0 then none else some (above / below % 2 ^ 64)

-- What the accessors give of an empty object.
abbrev pub empty : Metadata
empty = record {
  rule = explicit_rule;
  data_type = "unknown";
  sample_size = 0;
  linear = record { table_id = ""; start = none; delta = none; value_index = none };
}
