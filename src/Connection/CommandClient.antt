-- ===== src/Connection/CommandClient.antt =====
-- The in-band command interface client, src/detail/in_band_command_interface_client.cpp and its
-- header. Handlers and JSON values are of any types. The map is its entries in the order in which
-- they came, and `unsigned` has 32 bits.
pub mod Calls
use Prim.Native.String.{String}
use ws_streaming.Prelude.{
  ℕ, ◌+◌, ◌%◌, ◌^◌, List, [], ◌∷◌, ◌++◌, Bool, false, true, Option, none, some, ◌==◌, if◌then◌else◌,
}

-- How a handler is called: with `operation_aborted`, or with the result of a response.
pub data Outcome (Json : Type 0) : Type 0 where
  aborted : Outcome Json
  responded : Json → Outcome Json

-- The call of a handler for the request with the id.
pub record Call (Handler Json : Type 0) : Type 0 where
  pub id : ℕ
  pub handler : Handler
  pub outcome : Outcome Json

-- The parameters of the message `request`.
pub record Request (Json : Type 0) : Type 0 where
  pub id : ℕ
  pub method : String
  pub params : Json

pub record Client (Handler : Type 0) : Type 0 where
  pub next_id : ℕ
  pub requests : List (ℕ × Handler)

module _ {Handler : Type 0} where
  unfoldable pub client : Client Handler
  client = record { next_id = 1; requests = [] }

  -- `_requests.find`
  unfoldable pub find_request : ℕ → List (ℕ × Handler) → Option Handler
  find_request id [] = none
  find_request id ((k, h) ∷ rs) = let rest = find_request id rs in if k == id then some h else rest

  -- `_requests.emplace`, which leaves an entry with the id as it is.
  unfoldable pub emplace : ℕ → Handler → List (ℕ × Handler) → List (ℕ × Handler)
  emplace id h rs = elim (find_request id rs) [ none ↦ rs ++ ((id, h) ∷ []) | some _ ↦ rs ]

  unfoldable pub erase : ℕ → List (ℕ × Handler) → List (ℕ × Handler)
  erase id [] = []
  erase id ((k, h) ∷ rs) = let rest = erase id rs in if k == id then rs else (k, h) ∷ rest

module _ {Handler Json : Type 0} where
  unfoldable pub async_request :
      Client Handler → String → Json → Handler → Client Handler × Request Json
  unfolding emplace
  async_request c method params handler = (
    record { next_id = (c.next_id + 1) % 2 ^ 32; requests = emplace c.next_id handler c.requests },
    record { id = c.next_id; method = method; params = params },
  )

  unfoldable pub abort_all : List (ℕ × Handler) → List (Call Handler Json)
  abort_all [] = []
  abort_all ((id, h) ∷ rs) = record { id = id; handler = h; outcome = aborted } ∷ abort_all rs

  unfoldable pub cancel : Client Handler → Client Handler × List (Call Handler Json)
  unfolding abort_all
  cancel c = (record c { requests = [] }, abort_all c.requests)

  -- `id` is the integer of the response, `none` where it has none, and `result` its result or null.
  unfoldable pub handle_response :
      Client Handler → Option ℕ → Json → Client Handler × List (Call Handler Json)
  unfolding find_request erase
  handle_response c none result = (c, [])
  handle_response c (some n) result =
      let id = n % 2 ^ 32 in
      elim (find_request id c.requests) [
        | none ↦ (c, [])
        | some h ↦ (
          record c { requests = erase id c.requests },
          record { id = id; handler = h; outcome = responded result } ∷ [],
        )
      ]
