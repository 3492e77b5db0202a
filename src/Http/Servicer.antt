-- ===== src/Http/Servicer.antt =====
-- The servicer of an HTTP connection, include/ws-streaming/detail/http_client_servicer.hpp, over a
-- plaintext or a TLS stream. Boost.Beast and Asio are its environment: the operation that is
-- outstanding completes as an event. The JSON library, the key of an upgrade and the slot of the
-- command interface are arguments.
pub mod Life
pub mod Responses
use Prim.Native.String.{String}
use ws_streaming.Prelude.{
  ℕ, ◌+◌, List, [], ◌∷◌, ◌++◌, Bool, true, false, not, ◌&&◌, ◌||◌, Option, none, some,
  if◌then◌else◌, ◌==◌,
}
use ws_streaming.Signals.Ids.{same_id, is_empty}

-- What nlohmann::json does, with `parse` none where it throws, and `what` its message. `error` is the
-- object with the code -32700 and a message, `is_true` the comparison with `true`.
pub record Library : Type 1 where
  pub Json : Type 0
  pub null : Json
  pub array : List Json → Json
  pub parse : String → Option Json
  pub what : String → String
  pub error : String → Json
  pub is_null : Json → Bool
  pub is_object : Json → Bool
  pub is_array : Json → Bool
  pub is_string : Json → Bool
  pub is_boolean : Json → Bool
  pub is_true : Json → Bool
  pub contains : Json → String → Bool
  pub at : Json → String → Json
  pub elements : Json → List Json
  pub get_string : Json → String

pub data Verb : Type 0 where
  post options other_verb : Verb

-- The fields of a request that are looked at; a header that is not there is empty.
pub record Request : Type 0 where
  pub upgrade : String
  pub key : String
  pub verb : Verb
  pub keep_alive : Bool
  pub body : String

-- What a slot of `on_command_interface_request` does: it throws, there is none, or it returns.
pub data Answer (Json : Type 0) : Type 0 where
  thrown : String → Answer Json
  unconnected : Answer Json
  answered : Json → Answer Json

pub data Content (Json : Type 0) : Type 0 where
  no_content succeeded : Content Json
  dumped : Json → Content Json

pub record Response (Json : Type 0) : Type 0 where
  pub status : ℕ
  pub keep_alive : Bool
  pub accept : Option String
  pub content : Content Json

pub data ResponseAction : Type 0 where
  close_after keepalive upgrade_after : ResponseAction

pub data Pending : Type 0 where
  handshake read : Pending
  write : ResponseAction → Pending

pub data ErrorCode : Type 0 where
  success failed timeout : ErrorCode

pub data Effect (Json : Type 0) : Type 0 where
  writing : Response Json → ResponseAction → Effect Json
  upgraded : Effect Json
  closed : ErrorCode → Effect Json

-- `is_open` is the socket's state. `expired` says that the deadline of the stream has passed while
-- an operation is outstanding: the stream has closed the socket, and the operation completes with a
-- timeout. This may be so after the servicer has closed the socket itself, where the timer's handler
-- was queued before.
pub record Servicer : Type 0 where
  pub is_tls : Bool
  pub is_open : Bool
  pub pending : Option Pending
  pub expired : Bool

unfoldable pub servicer : Bool → Servicer
servicer is_tls = record { is_tls = is_tls; is_open = true; pending = none; expired = false }

unfoldable pub is_upgrade : Request → Bool
is_upgrade r = same_id r.upgrade "websocket" && not (is_empty r.key)

unfoldable pub is_success : ErrorCode → Bool
is_success success = true
is_success _ = false

module _ (lib : Library) where
  -- Whether all the entries of an array are `true`.
  unfoldable pub all_true : List lib.Json → Bool
  all_true [] = true
  all_true (v ∷ vs) = if not (lib.is_boolean v) || not (lib.is_true v) then false else all_true vs

  unfoldable pub is_succeeded : lib.Json → Bool
  unfolding all_true
  is_succeeded v =
      if lib.is_array v
      then all_true (lib.elements v)
      else if lib.is_boolean v
      then lib.is_true v
      else false

  unfoldable pub content_of : lib.Json → Content lib.Json
  unfolding is_succeeded
  content_of v =
      if lib.is_null v then no_content else if is_succeeded v then succeeded else dumped v

  unfoldable pub json_response : Request → ℕ → lib.Json → Response lib.Json
  unfolding content_of
  json_response r status v = record {
    status = status;
    keep_alive = r.keep_alive;
    accept = none;
    content = content_of v;
  }

  unfoldable pub response_action : Response lib.Json → ResponseAction
  response_action res =
      if res.status == 101 then upgrade_after else if res.keep_alive then keepalive else close_after

  unfoldable pub answer_response : Request → Answer lib.Json → Response lib.Json
  unfolding json_response
  answer_response r (thrown message) = json_response r 500 (lib.error message)
  answer_response r unconnected = json_response r 500 (lib.error "No connected slot")
  answer_response r (answered v) = json_response r 200 v

  unfoldable pub is_call : lib.Json → Bool
  is_call v = lib.is_object v && lib.contains v "method" && lib.is_string (lib.at v "method")

  module _ (response_key : String → String) (slot : String → lib.Json → Answer lib.Json) where
    -- Parameters that are missing are `nlohmann::json{nullptr}`, which is an array of one null.
    unfoldable pub post_response : Request → Option lib.Json → Response lib.Json
    unfolding json_response answer_response is_call
    post_response r none = json_response r 500 (lib.error (lib.what r.body))
    post_response r (some v) =
        if not (is_call v)
        then json_response r 400 (lib.error "Request object is invalid")
        else answer_response r (
            slot (lib.get_string (lib.at v "method"))
              (if lib.contains v "params" then lib.at v "params" else lib.array (lib.null ∷ [])))

    unfoldable pub verb_response : Verb → Request → Response lib.Json
    unfolding post_response json_response
    verb_response post r = post_response r (lib.parse r.body)
    verb_response options r = json_response r 204 lib.null
    verb_response other_verb r = record {
      status = 400;
      keep_alive = r.keep_alive;
      accept = none;
      content = no_content;
    }

    -- The response to a request that has been read. Whether that of an upgrade would keep the
    -- connection alive is not looked at.
    unfoldable pub respond : Request → Response lib.Json
    unfolding is_upgrade verb_response
    respond r =
        if is_upgrade r
        then record {
          status = 101;
          keep_alive = true;
          accept = some (response_key r.key);
          content = no_content;
        }
        else verb_response r.verb r

    unfoldable pub close : Servicer → ErrorCode → Servicer × List (Effect lib.Json)
    close s timeout = (s, closed timeout ∷ [])
    close s ec = if not s.is_open then (s, []) else (record s { is_open = false }, closed ec ∷ [])

    unfoldable pub do_read : Servicer → Servicer × List (Effect lib.Json)
    do_read s = (record s { pending = some read }, [])

    unfoldable pub do_write :
        Servicer → Response lib.Json → ResponseAction → Servicer × List (Effect lib.Json)
    do_write s res action = (record s { pending = some (write action) }, writing res action ∷ [])

    unfoldable pub run : Servicer → Servicer × List (Effect lib.Json)
    unfolding do_read
    run s = if s.is_tls then (record s { pending = some handshake }, []) else do_read s

    unfoldable pub finish_handshake : Servicer → ErrorCode → Servicer × List (Effect lib.Json)
    unfolding close do_read is_success
    finish_handshake s ec = if not (is_success ec) then close s ec else do_read s

    unfoldable pub finish_read : Servicer → ErrorCode → Request → Servicer × List (Effect lib.Json)
    unfolding close do_write respond response_action is_success
    finish_read s ec r =
        if not (is_success ec)
        then close s ec
        else do_write s (respond r) (response_action (respond r))

    -- After an upgrade the plaintext socket has been released; `taken` says whether the slot of a TLS
    -- stream has taken it.
    unfoldable pub finish_action :
        Servicer → ResponseAction → Bool → Servicer × List (Effect lib.Json)
    unfolding close do_read
    finish_action s keepalive taken = do_read s
    finish_action s upgrade_after taken =
        (record s { is_open = s.is_open && s.is_tls && not taken }, upgraded ∷ [])
    finish_action s close_after taken = close s success

    unfoldable pub finish_write :
        Servicer → ResponseAction → ErrorCode → Bool → Servicer × List (Effect lib.Json)
    unfolding close finish_action is_success
    finish_write s action ec taken =
        if not (is_success ec) then close s ec else finish_action s action taken
