-- ===== src/Examples/Journals.antt =====
-- The theorems on what a run journals, at concrete values.
use shimpz_brain.Base.{some, [], ◌≡◌, ◌≢◌, refl, arith}
use shimpz_brain.Json.{object}
use shimpz_brain.Turn.Context.{context_value, context_from}
use shimpz_brain.Turn.Context.RoundTrip.{IsPinnable, context_from-context_value}
use shimpz_brain.Turn.Run.{
  TeamRequest, request_name, action, input_value, input_json, input_from_json, request_value,
  request_json, request_from_json,
}
use shimpz_brain.Turn.Run.RoundTrip.{
  IsJournaled, input_from_json-input_json, request_from_json-request_json,
}
use shimpz_brain.Examples.{reading, context, input}

context-IsPinnable : IsPinnable context
context-IsPinnable = record {
  question_ok = λ e. absurd (cc);
  schedule_ok = λ e. absurd (cc);
  selected_ok = λ e. absurd (cc);
  charge_i64 = omega arith;
}

context_from-context_value_example : context_from (context_value context) ≡ some context
context_from-context_value_example = context_from-context_value context context-IsPinnable

input-IsJournaled : IsJournaled input
input-IsJournaled = record {
  context_ok = context-IsPinnable;
  messages_ok = (tt, tt);
  start_i64 = omega arith;
}

input_from_json-input_json_example :
    input_from_json (reading (input_value input)) (input_json (reading (input_value input)) input)
    ≡ some input
input_from_json-input_json_example =
    input_from_json-input_json (reading (input_value input)) input input-IsJournaled refl

abbrev request : TeamRequest
request = action "i1" "mail" "list" (object [])

request_from_json-request_json_example :
    request_from_json
      (reading (request_value request))
      "action"
      (request_json (reading (request_value request)) request)
    ≡ some request
unfolding request_name
request_from_json-request_json_example =
    request_from_json-request_json (reading (request_value request)) request refl

browser-ne-action : "browser" ≢ request_name request
unfolding request_name
browser-ne-action e = absurd (cc)
