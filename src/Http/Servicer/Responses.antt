-- ===== src/Http/Servicer/Responses.antt =====
-- The responses of a servicer, include/ws-streaming/detail/http_client_servicer.hpp, to one request
-- and to requests that follow each other on a connection.
use Prim.Native.String.{String}
use ws_streaming.Prelude.{
  ◌≡◌, refl, List, [], ◌∷◌, true, false, Option, none, some, if◌then◌else◌, Bool-cases, inl, inr,
}
use ws_streaming.Http.Servicer.{
  Library, Verb, post, options, other_verb, Request, Answer, thrown, unconnected, answered,
  close_after, keepalive, upgrade_after, read, Effect, writing, Servicer, is_upgrade, is_call,
  respond, post_response, verb_response, answer_response, json_response, response_action,
}
use ws_streaming.Http.Servicer.Life.{Event, completed}

module _ (lib : Library) (response_key : String → String)
    (slot : String → lib.Json → Answer lib.Json) where
  answer_action :
      (r : Request) (a : Answer lib.Json)
      → response_action lib (answer_response lib r a)
        ≡ (if r.keep_alive then keepalive else close_after)
  unfolding response_action answer_response json_response
  answer_action r (thrown message) = refl
  answer_action r unconnected = refl
  answer_action r (answered v) = refl

  post_action :
      (r : Request) (v : Option lib.Json)
      → response_action lib (post_response lib response_key slot r v)
        ≡ (if r.keep_alive then keepalive else close_after)
  unfolding post_response response_action json_response
  post_action r none = refl
  post_action r (some v) = elim (Bool-cases (is_call lib v)) [
    | inl e ↦ rw e (answer_action r _)
    | inr e ↦ rw e refl
  ]

  verb_action :
      (verb : Verb) (r : Request)
      → response_action lib (verb_response lib response_key slot verb r)
        ≡ (if r.keep_alive then keepalive else close_after)
  unfolding verb_response response_action json_response
  verb_action post r = post_action r (lib.parse r.body)
  verb_action options r = refl
  verb_action other_verb r = refl

  -- What is done after the response.
  pub response_action-respond :
      (r : Request)
      → response_action lib (respond lib response_key slot r)
        ≡ (if is_upgrade r then upgrade_after else if r.keep_alive then keepalive else close_after)
  unfolding respond response_action
  response_action-respond r = elim (Bool-cases (is_upgrade r)) [
    | inl e ↦ rw e refl
    | inr e ↦ rw e (verb_action r.verb r)
  ]

  -- A request after which the connection is read again.
  unfoldable pub Stays : Request → Type 0
  Stays r = (is_upgrade r ≡ false) × (r.keep_alive ≡ true)

  -- The completions of the reads of some requests and of the writes of their responses.
  unfoldable pub exchange : List Request → List Event
  exchange [] = []
  exchange (r ∷ rs) = completed true r false ∷ completed true r false ∷ exchange rs

  unfoldable pub replies : List Request → List (Effect lib.Json)
  replies [] = []
  replies (r ∷ rs) = writing (respond lib response_key slot r) keepalive ∷ replies rs

  unfoldable pub reading : Servicer → Servicer
  reading s = record s { pending = some read; expired = false }
