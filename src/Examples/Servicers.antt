-- ===== src/Examples/Servicers.antt =====
-- An HTTP servicer with a JSON library of a few values.
use Prim.Native.String.{String}
use ws_streaming.Prelude.{◌+◌, ◌≡◌, ◌≤◌, List, [], ◌∷◌, Bool, true, false, some}
use ws_streaming.Http.Servicer.{Servicer}
use ws_streaming.Http.Servicer.{Library, Request, Answer, answered, servicer, post, run}
use ws_streaming.Http.Servicer.Life.{
  Event, completed, expire, stop, steps, closings, late_deadlines, closings-steps,
}

data Value : Type 0 where
  nothing : Value
  flag : Bool → Value
  text : String → Value
  call : String → Value

is_nothing : Value → Bool
is_nothing nothing = true
is_nothing _ = false

is_flag : Value → Bool
is_flag (flag b) = true
is_flag _ = false

is_call : Value → Bool
is_call (call m) = true
is_call _ = false

is_text : Value → Bool
is_text (text s) = true
is_text _ = false

truth : Value → Bool
truth (flag b) = b
truth _ = false

method_of : Value → String → Value
method_of (call m) k = text m
method_of v k = nothing

text_of : Value → String
text_of (text s) = s
text_of _ = ""

abbrev values : Library
values = record {
  Json = Value;
  null = nothing;
  array = λ vs. nothing;
  parse = λ body. some (call body);
  what = λ body. body;
  error = text;
  is_null = is_nothing;
  is_object = is_call;
  is_array = λ v. false;
  is_string = is_text;
  is_boolean = is_flag;
  is_true = truth;
  contains = λ v k. is_call v;
  at = method_of;
  elements = λ v. [];
  get_string = text_of;
}

abbrev key_of : String → String
key_of key = key

abbrev slot : String → Value → Answer Value
slot method params = answered (flag true)

abbrev subscribe_request : Request
subscribe_request = record {
  upgrade = "";
  key = "";
  verb = post;
  keep_alive = true;
  body = "stream.subscribe";
}

-- A request, a response that waits for the deadline, and a stop.
abbrev late_stop : List Event
late_stop =
    completed true subscribe_request false
    ∷ expire
    ∷ stop
    ∷ completed false subscribe_request false
    ∷ stop
    ∷ []

abbrev begun : Servicer
begun = (run values key_of slot (servicer false)).0

closings-steps_example :
    (closings values key_of slot (steps values key_of slot begun late_stop).1
      ≤ 1 + late_deadlines values key_of slot begun late_stop)
    × ((ok : Bool) (r : Request) (taken : Bool)
        → closings values key_of slot
            (steps values key_of slot begun (stop ∷ expire ∷ completed ok r taken ∷ [])).1
          ≡ 2)
closings-steps_example = closings-steps values key_of slot false late_stop
