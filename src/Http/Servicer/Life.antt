-- ===== src/Http/Servicer/Life.antt =====
-- The events of a servicer, include/ws-streaming/detail/http_client_servicer.hpp, in any order: the
-- completion of the outstanding operation, the deadline and `stop`.
use Prim.Native.String.{String}
use ws_streaming.Prelude.{
  ◌≡◌, refl, ◌≤◌, ℕ, ◌+◌, List, [], ◌∷◌, ◌++◌, Bool, true, false, not, ◌&&◌, Option, none, some,
  if◌then◌else◌, arith,
}
use ws_streaming.Http.Servicer.{
  Library, Request, Answer, ResponseAction, close_after, keepalive, upgrade_after, Pending,
  handshake, read, write, ErrorCode, success, failed, timeout, Effect, writing, upgraded, closed,
  Servicer, servicer, close, run, do_read, do_write, finish_handshake, finish_read, finish_write,
  finish_action, is_success,
}

-- `completed` has whether the operation succeeded, the request that a read has read, and whether the
-- slot of an upgrade takes the stream.
pub data Event : Type 0 where
  completed : Bool → Request → Bool → Event
  expire stop : Event

-- The operation completes with a timeout where its deadline has passed.
unfoldable pub code_of : Servicer → Bool → ErrorCode
code_of s ok = if s.expired then timeout else if ok then success else failed

unfoldable pub weight : Servicer → ℕ
weight s = (if s.is_open then 1 else 0) + (if s.expired then 1 else 0)

module _ (lib : Library) (response_key : String → String)
    (slot : String → lib.Json → Answer lib.Json) where
  unfoldable pub finish :
      Pending → Servicer → ErrorCode → Request → Bool → Servicer × List (Effect lib.Json)
  unfolding finish_handshake finish_read finish_write
  finish handshake s ec r taken = finish_handshake lib response_key slot s ec
  finish read s ec r taken = finish_read lib response_key slot s ec r
  finish (write action) s ec r taken = finish_write lib response_key slot s action ec taken

  unfoldable pub complete :
      Option Pending → Servicer → Bool → Request → Bool → Servicer × List (Effect lib.Json)
  unfolding finish code_of
  complete none s ok r taken = (s, [])
  complete (some p) s ok r taken =
      finish p (record s { pending = none; expired = false }) (code_of s ok) r taken

  is_some : Option Pending → Bool
  is_some none = false
  is_some (some p) = true

  unfoldable pub step : Servicer → Event → Servicer × List (Effect lib.Json)
  unfolding complete close is_some
  step s (completed ok r taken) = complete s.pending s ok r taken
  step s expire =
      if is_some s.pending then (record s { is_open = false; expired = true }, []) else (s, [])
  step s stop = close lib response_key slot s success

  unfoldable pub steps : Servicer → List Event → Servicer × List (Effect lib.Json)
  unfolding step
  steps s [] = (s, [])
  steps s (e ∷ es) = let (s', out) = step s e in let (s'', more) = steps s' es in (s'', out ++ more)

  -- The deadlines that pass once the socket has been closed, before the operation that is
  -- outstanding has completed.
  unfoldable pub is_late : Servicer → Event → Bool
  unfolding is_some
  is_late s expire = is_some s.pending && not s.is_open && not s.expired
  is_late s stop = false
  is_late s (completed ok r taken) = false

  unfoldable pub late_deadlines : Servicer → List Event → ℕ
  unfolding is_late step
  late_deadlines s [] = 0
  late_deadlines s (e ∷ es) = (if is_late s e then 1 else 0) + late_deadlines (step s e).0 es

  -- The calls of `on_closed`.
  unfoldable pub closings : List (Effect lib.Json) → ℕ
  closings [] = 0
  closings (closed ec ∷ es) = 1 + closings es
  closings (writing res action ∷ es) = closings es
  closings (upgraded ∷ es) = closings es

  closings-append :
      (xs ys : List (Effect lib.Json)) → closings (xs ++ ys) ≡ closings xs + closings ys
  unfolding closings
  closings-append [] ys = omega arith
  closings-append (closed ec ∷ xs) ys = omega (arith, closings-append xs ys)
  closings-append (writing res action ∷ xs) ys = closings-append xs ys
  closings-append (upgraded ∷ xs) ys = closings-append xs ys

  -- What may still be reported once an operation has completed with the code.
  late : ErrorCode → ℕ
  late timeout = 1
  late _ = 0

  total : Servicer × List (Effect lib.Json) → ℕ
  total p = closings p.1 + weight p.0

  close-total :
      (s : Servicer) (ec : ErrorCode)
      → total (close lib response_key slot s ec) ≤ weight s + late ec
  unfolding close closings weight late total
  close-total s success = ground arith
  close-total s failed = ground arith
  close-total s timeout = ground arith

  action-total :
      (s : Servicer) (action : ResponseAction) (taken : Bool)
      → total (finish_action lib response_key slot s action taken) ≤ weight s
  unfolding finish_action do_read closings weight total late
  action-total s keepalive taken = ground arith
  action-total s upgrade_after taken = ground arith
  action-total s close_after taken = omega (arith, close-total s success)

  finish-total :
      (p : Pending) (s : Servicer) (ec : ErrorCode) (r : Request) (taken : Bool)
      → total (finish p s ec r taken) ≤ weight s + late ec
  unfolding finish finish_handshake finish_read finish_write do_read do_write is_success closings
      weight late total
  finish-total handshake s success r taken = ground arith
  finish-total handshake s failed r taken = close-total s failed
  finish-total handshake s timeout r taken = close-total s timeout
  finish-total read s success r taken = ground arith
  finish-total read s failed r taken = close-total s failed
  finish-total read s timeout r taken = close-total s timeout
  finish-total (write action) s success r taken = omega (arith, action-total s action taken)
  finish-total (write action) s failed r taken = close-total s failed
  finish-total (write action) s timeout r taken = close-total s timeout

  code-weight :
      (s : Servicer) (ok : Bool)
      → weight (record s { pending = none; expired = false }) + late (code_of s ok) ≤ weight s
  unfolding code_of weight late
  code-weight s true = ground arith
  code-weight s false = ground arith

  complete-total :
      (p : Option Pending) (s : Servicer) (ok : Bool) (r : Request) (taken : Bool)
      → total (complete p s ok r taken) ≤ weight s
  unfolding complete total closings
  complete-total none s ok r taken = omega arith
  complete-total (some p) s ok r taken = omega (
    arith,
    finish-total p (record s { pending = none; expired = false }) (code_of s ok) r taken,
    code-weight s ok,
  )

  step-total :
      (s : Servicer) (e : Event) → total (step s e) ≤ weight s + (if is_late s e then 1 else 0)
  unfolding step total closings weight late is_late
  step-total s (completed ok r taken) = omega (arith, complete-total s.pending s ok r taken)
  step-total s expire = ground arith
  step-total s stop = omega (arith, close-total s success)

  steps-total :
      (s : Servicer) (es : List Event) → total (steps s es) ≤ weight s + late_deadlines s es
  unfolding steps total closings late_deadlines
  steps-total s [] = omega arith
  steps-total s (e ∷ es) =
      let (s', out) = step s e in
      let (s'', more) = steps s' es in
      omega (arith, step-total s e, steps-total s' es, closings-append out more)

  -- Two calls, in one order.
  stop_late :
      (s : Servicer) (p : Pending) (ok : Bool) (r : Request) (taken : Bool)
      → s.is_open ≡ true
      → s.pending ≡ some p
      → closings (steps s (stop ∷ expire ∷ completed ok r taken ∷ [])).1 ≡ 2
  unfolding steps step complete finish finish_handshake finish_read finish_write close closings
      is_some code_of is_success
  stop_late s handshake ok r taken o e = rw (steps, step, o, e) refl
  stop_late s read ok r taken o e = rw (steps, step, o, e) refl
  stop_late s (write action) ok r taken o e = rw (steps, step, o, e) refl

  -- From the start of an HTTP servicer, over a plaintext or a TLS stream, in any order of
  -- completed operations, deadlines and stops, on_closed is raised at most once, and once more
  -- for each deadline that passes after the close and before its operation completes; in the
  -- order stop, deadline, completion it is raised twice.
  pub closings-steps :
      (is_tls : Bool) (es : List Event)
      → let s = (run lib response_key slot (servicer is_tls)).0 in
        (closings (steps s es).1 ≤ 1 + late_deadlines s es)
        × ((ok : Bool) (r : Request) (taken : Bool)
            → closings (steps s (stop ∷ expire ∷ completed ok r taken ∷ [])).1 ≡ 2)
  unfolding run do_read servicer weight total
  closings-steps true es =
      let s = (run lib response_key slot (servicer true)).0 in
      (omega (arith, steps-total s es), λ ok r taken. stop_late s handshake ok r taken refl refl)
  closings-steps false es =
      let s = (run lib response_key slot (servicer false)).0 in
      (omega (arith, steps-total s es), λ ok r taken. stop_late s read ok r taken refl refl)
