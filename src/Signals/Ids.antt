-- ===== src/Signals/Ids.antt =====
-- Signal ids, which are strings.
use Prim.Native.String.{String, ◌++◌}
use mathlib.Core.Logic.{◌↔◌}
use ws_streaming.Prelude.{◌≡◌, Bool, true}
use text.Mathlib.Text.{◌==◌}
use text.Mathlib.TextEquality.{eq_iff}

abbrev pub same_id : String → String → Bool
same_id a b = a == b

abbrev pub is_empty : String → Bool
is_empty a = a == ""

abbrev pub joined : String → String → String
joined a b = a ++ b

pub same_id_iff : (a b : String) → (same_id a b ≡ true) ↔ (a ≡ b)
same_id_iff a b = eq_iff a b
