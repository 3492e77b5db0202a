-- ===== src/Peer/Effects.antt =====
-- What a peer does besides changing its own state, in order.
use Prim.Native.String.{String}
use ws_streaming.Prelude.{ℕ, List, Bool, true, false}

-- `boost::system::error_code`: the codes that the program names, and all others.
pub data ErrorCode : Type 0 where
  success no_buffer_space operation_not_supported would_block : ErrorCode
  other : ℕ → ErrorCode

-- An error code in a test.
abbrev pub is_error : ErrorCode → Bool
is_error success = false
is_error _ = true

-- `data_received` and `metadata_received` are the signals; `control_frame`, `close` and `read` are
-- calls of virtual functions, which the transport carries out.
pub data Effect (Json : Type 0) : Type 0 where
  data_received : ℕ → List ℕ → Effect Json
  metadata_received : ℕ → String → Json → Effect Json
  control_frame : ℕ → List ℕ → Bool → Effect Json
  close : ErrorCode → Effect Json
  read : Effect Json
