-- ===== src/Connection/Dispatch/Requests.antt =====
-- The responses to the requests that a connection receives, src/connection.cpp.
use Prim.Native.String.{String}
use ws_streaming.Prelude.{
  ◌≡◌, refl, ap, ◌∙◌, ℕ, ◌+◌, List, [], ◌∷◌, ◌++◌, map, Bool, true, false, not, ◌&&◌, ◌||◌, Option,
  none, some, if◌then◌else◌, arith, Bool-cases, inl, inr,
}
use ws_streaming.Signals.Ids.{same_id, same_id_iff}
use ws_streaming.Semver.{ge}
use ws_streaming.Metadata.Document.{Library}
use ws_streaming.Connection.Messages.{json_values}
use ws_streaming.Connection.Receive.{Remote}
use ws_streaming.Connection.Local.{Outgoing, announce}
use ws_streaming.Connection.Handlers.{Notice, handle_available, handle_unavailable}
use ws_streaming.Connection.Parameters.{
  read_ids, do_command_interface_subscribe, do_command_interface_unsubscribe,
}
use ws_streaming.Connection.Dispatch.{
  Result, returned, thrown, undefined_read, Session, Output, CommandInterface, sent, response,
  noticed, in_band, over_http, Reply, has_string, do_command_interface, do_hello, greet,
  give_response, request_reply, value_or_null, handle_command_interface_request,
  handle_command_interface_response, on_remote, handle_init, handle_stream_message,
}

and_true : (b : Bool) → (b && true) ≡ b
and_true true = refl
and_true false = refl

and_false : (b : Bool) → (b && false) ≡ false
and_false true = refl
and_false false = refl

module _ (doc : Library) where
  -- The responses among what is sent.
  unfoldable pub responses : List (Output doc.Json) → ℕ
  responses [] = 0
  responses (response id reply ∷ out) = 1 + responses out
  responses (_ ∷ out) = responses out

  unfoldable pub answers : Result (Session doc.Json × List (Output doc.Json)) → Result ℕ
  unfolding responses
  answers (returned (s, out)) = returned (responses out)
  answers thrown = thrown
  answers undefined_read = undefined_read

  responses-sent : (os : List Outgoing) → responses (map sent os) ≡ 0
  unfolding responses
  responses-sent [] = refl
  responses-sent (o ∷ os) = responses-sent os

  pub responses-noticed : (ns : List Notice) → responses (map noticed ns) ≡ 0
  unfolding responses
  responses-noticed [] = refl
  responses-noticed (n ∷ ns) = responses-noticed ns

  responses-sent_last :
      (os : List Outgoing) (id : doc.Json) (reply : Reply)
      → responses (map sent os ++ response id reply ∷ []) ≡ 1
  unfolding responses
  responses-sent_last [] id reply = omega arith
  responses-sent_last (o ∷ os) id reply = responses-sent_last os id reply

  command_sent :
      (s : Session doc.Json) (method : String) (params id : doc.Json)
      → responses (
          (do_command_interface doc s method params).2
          ++ response id (do_command_interface doc s method params).1 ∷ [])
        ≡ 1
  unfolding do_command_interface
  command_sent s method params id =
      let (l, ok, os) = do_command_interface_subscribe (json_values doc) s.local params in
      let (l', ok', os') = do_command_interface_unsubscribe (json_values doc) s.local params in
      ground (
        arith,
        responses-sent_last [] id Reply.method_not_found,
        responses-sent_last os id (Reply.outcome ok),
        responses-sent_last os' id (Reply.outcome ok'),
      )

  reply_sent :
      (s : Session doc.Json) (params id : doc.Json)
      → responses
          ((request_reply doc s params).2 ++ response id (request_reply doc s params).1 ∷ [])
        ≡ 1
  unfolding request_reply responses
  reply_sent s params id =
      elim (Bool-cases (not (doc.is_object params) || not (has_string doc params "method"))) [
        | inl e ↦ rw (request_reply, e) (omega arith)
        | inr e ↦
            rw (request_reply, e)
              (command_sent s (doc.get_string (doc.at params "method"))
                (value_or_null doc params "params") id)
      ]

  answers_if :
      (b : Bool) (s : Session doc.Json) (out : List (Output doc.Json))
      → answers (if b then returned (s, out) else thrown)
        ≡ (if b then returned (responses out) else thrown)
  unfolding answers
  answers_if true s out = refl
  answers_if false s out = refl

  answers-handle_command_interface_request :
      (s : Session doc.Json) (params : doc.Json)
      → answers (handle_command_interface_request doc s params)
        ≡ (if doc.is_object params then returned 1 else thrown)
  unfolding handle_command_interface_request
  answers-handle_command_interface_request s params =
      let (s', reply, out) = request_reply doc s params in
      answers_if (doc.is_object params) s'
        (out ++ response (value_or_null doc params "id") reply ∷ [])
      ∙ ap (λ (n : ℕ). if doc.is_object params then returned n else thrown)
          (reply_sent s params (value_or_null doc params "id"))

  pub other-none :
      (s : Session doc.Json) (r : Remote × List Notice)
      → answers (returned (on_remote doc s r)) ≡ returned 0
  unfolding on_remote answers
  other-none s (r, notices) = ap returned (responses-noticed notices)

  hello-none : (s : Session doc.Json) → responses (do_hello doc s).1 ≡ 0
  unfolding do_hello announce responses
  hello-none s = responses-sent (announce s.local).1

  greet-none : (s : Session doc.Json) → responses (greet doc s).1 ≡ 0
  unfolding greet responses
  greet-none s =
      elim (Bool-cases
        (s.is_client && ge s.api_version (record { major = 2; minor = 0; revision = 0 }))) [
          | inl e ↦ rw (greet, e) (hello-none s)
          | inr e ↦ rw (greet, e) refl
        ]

  give-none :
      (c : Option CommandInterface) (params : doc.Json) → responses (give_response doc c params) ≡ 0
  unfolding give_response responses
  give-none none params = refl
  give-none (some in_band) params = refl
  give-none (some (over_http a p m path v)) params = refl

  module _ (bytes : String → List ℕ) (endpoint : Option String) where
    init-none :
        (s : Session doc.Json) (params : doc.Json)
        → responses (handle_init doc bytes endpoint s params).1 ≡ 0
    unfolding handle_init responses
    init-none s params = elim (Bool-cases (doc.is_object params)) [
      | inl e ↦ rw (handle_init, e) (greet-none _)
      | inr e ↦ rw (handle_init, e) refl
    ]

    response-none :
        (s : Session doc.Json) (params : doc.Json)
        → responses (handle_command_interface_response doc s params).1 ≡ 0
    unfolding handle_command_interface_response
    response-none s params = give-none s.command_client params

    some-none :
        (p : Session doc.Json × List (Output doc.Json))
        → responses p.1 ≡ 0
        → answers (returned p) ≡ returned 0
    unfolding answers
    some-none (s, out) h = ap returned h

    -- The methods are different texts.
    pub not_request :
        (method key : String)
        → same_id method key ≡ true
        → same_id key "request" ≡ false
        → same_id method "request" ≡ false
    not_request method key e d = rw ((same_id_iff method key).0 e) d

    last_answers :
        (s : Session doc.Json) (method : String) (params : doc.Json)
        → same_id method "apiVersion" ≡ false
        → same_id method "init" ≡ false
        → same_id method "available" ≡ false
        → answers (handle_stream_message doc bytes endpoint s method params) ≡ (
            if same_id method "request"
            then (if doc.is_object params then returned 1 else thrown)
            else returned 0)
    unfolding handle_stream_message answers
    last_answers s method params a b c = elim (Bool-cases (same_id method "unavailable")) [
      | inl d ↦
          rw (handle_stream_message, a, b, c, d, not_request method "unavailable" d refl)
            (other-none s (handle_unavailable s.remote (read_ids (json_values doc) params)))
      | inr d ↦ elim (Bool-cases (same_id method "request")) [
        | inl e ↦
            rw (handle_stream_message, a, b, c, d, e)
              (answers-handle_command_interface_request s params)
        | inr e ↦ elim (Bool-cases (same_id method "response")) [
          | inl f ↦
              rw (handle_stream_message, a, b, c, d, e, f)
                (some-none (handle_command_interface_response doc s params)
                  (response-none s params))
          | inr f ↦ rw (handle_stream_message, a, b, c, d, e, f) refl
        ]
      ]
    ]

    pub stream_answers :
        (s : Session doc.Json) (method : String) (params : doc.Json)
        → answers (handle_stream_message doc bytes endpoint s method params) ≡ (
            if same_id method "request"
            then (if doc.is_object params then returned 1 else thrown)
            else returned 0)
    unfolding handle_stream_message answers
    stream_answers s method params = elim (Bool-cases (same_id method "apiVersion")) [
      | inl a ↦ rw (handle_stream_message, a, not_request method "apiVersion" a refl) refl
      | inr a ↦ elim (Bool-cases (same_id method "init")) [
        | inl b ↦
            rw (handle_stream_message, a, b, not_request method "init" b refl)
              (some-none (handle_init doc bytes endpoint s params) (init-none s params))
        | inr b ↦ elim (Bool-cases (same_id method "available")) [
          | inl c ↦
              rw (handle_stream_message, a, b, c, not_request method "available" c refl)
                (other-none s (handle_available s.remote (read_ids (json_values doc) params)))
          | inr c ↦ last_answers s method params a b c
        ]
      ]
    ]
