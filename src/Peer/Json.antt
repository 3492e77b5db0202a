-- ===== src/Peer/Json.antt =====
-- The JSON library (nlohmann::json), which is not part of the repository: the operations that the
-- program calls. A parser's exception is `none`.
use Prim.Native.String.{String}
use ws_streaming.Prelude.{ℕ, List, Bool, Option}

pub record JsonLib : Type 1 where
  pub Json : Type 0
  pub null : Json
  pub array : List Json → Json
  pub parse : List ℕ → Option Json
  pub from_msgpack : List ℕ → Option Json
  pub to_msgpack : Json → List ℕ
  pub is_object : Json → Bool
  pub is_string : Json → Bool
  pub contains : Json → String → Bool
  pub field : Json → String → Json
  pub get_string : Json → String
  pub method_object : String → Json → Json
