-- ===== src/Examples/Guards.antt =====
-- The theorems on the guarded tools, at concrete responses.
use shimpz_brain.Base.{
  ◌+◌, ◌≤◌, ◌++◌, String, Bool, true, false, Option, none, some, List, [], ◌∷◌, ◌≡◌, ◌⊎◌, refl,
  arith, All, length, ok, is_some,
}
use shimpz_brain.Json.Types.{Value, bool, null}
use shimpz_brain.Json.{object, array, text, uint}
use shimpz_brain.Conversation.{ToolCall, AssistantMessage, Message, user, assistant}
use shimpz_brain.Python.{Python}
use shimpz_brain.Tools.Refusal.{absent, alone, latest, lone_call, names_tool, unparsable}
use shimpz_brain.Tools.Clarification
use shimpz_brain.Tools.Clarification.{Clarification, ClarifyOption}
use shimpz_brain.Tools.Clarification.Bounds.{
  IsClarification, parse-IsClarification, clarification_review_pass,
}
use shimpz_brain.Tools.Memory
use shimpz_brain.Tools.Memory.{
  Change, change, current_message, proposed, calls_to_tool, accepted, lasting,
}
use shimpz_brain.Tools.Memory.Quotes.{IsOwnWords, proposed-IsOwnWords}
use shimpz_brain.Tools.Memory.Check.{
  lasting_value, confirmed, Answers, accepted_checks, memory_review_pass,
}
use shimpz_brain.Examples.{reading, py, team, reply_with, question, call_named}

abbrev browse_call : ToolCall
browse_call = call_named "browser" (object (("objective", text "open example.com") ∷ []))

abbrev browse_response : AssistantMessage
browse_response = reply_with "a1" "" (browse_call ∷ [])

abbrev browsing : List Message
browsing = question ∷ assistant browse_response ∷ []

abbrev option_of : String → Value
option_of label = object (("label", text label) ∷ ("description", text "") ∷ [])

abbrev asked_value : Value
asked_value = object (
    ("question", text "Which city?")
    ∷ ("options", array (option_of "Lisbon" ∷ option_of "Porto" ∷ []))
    ∷ ("default_index", uint 0)
    ∷ [])

abbrev asked : Clarification
asked = record {
  question = "Which city?";
  options =
      record { label = "Lisbon"; description = "" }
      ∷ record { label = "Porto"; description = "" }
      ∷ [];
  default_index = some 0;
}

parse-asked_value : Clarification.parse py asked_value ≡ some asked
unfolding Clarification.parse shimpz_brain.Json.has_exactly object shimpz_brain.Json.Types.get
    Clarification.line text Clarification.line_text shimpz_brain.Json.array_of array
    Clarification.option shimpz_brain.Json.u64_of uint Clarification.distinct_labels
parse-asked_value = refl

parse-IsClarification_example : IsClarification py asked
parse-IsClarification_example = parse-IsClarification py asked_value asked parse-asked_value

abbrev ask_call : ToolCall
ask_call = call_named Clarification.tool_name asked_value

abbrev asking : List Message
asking = question ∷ assistant (reply_with "a1" "" (ask_call ∷ [])) ∷ []

review-asking : Clarification.review py team asking true true none ≡ ok none
unfolding Clarification.review lone_call shimpz_brain.Tools.Refusal.lone_among names_tool
    shimpz_brain.Tools.Refusal.lone_of Clarification.parse shimpz_brain.Json.has_exactly object
    shimpz_brain.Json.Types.get Clarification.line text Clarification.line_text
    shimpz_brain.Json.array_of array Clarification.option shimpz_brain.Json.u64_of uint
    shimpz_brain.Conversation.as_assistant shimpz_brain.Json.as_array shimpz_brain.Json.as_u64
    shimpz_brain.Json.decimal shimpz_brain.Json.int shimpz_brain.Json.members
    Clarification.distinct_labels Clarification.team_owned latest
review-asking = refl

clarification_review_pass_example :
    (lone_call asking Clarification.tool_name ≡ ok absent)
    ⊎ ((call : ToolCall) × (shown : Clarification) × (lone_call asking Clarification.tool_name
          ≡ ok (alone call))
        × (true ≡ true)
        × (Clarification.parse py call.arguments ≡ some shown)
        × IsClarification py shown
        × ((true ≡ false) ⊎ (Clarification.team_owned py team shown none ≡ false)))
clarification_review_pass_example =
    clarification_review_pass py team asking true true none review-asking

-- A message that states a preference, and the response that proposes to remember it.
abbrev envelope : Value
envelope = object (("files", array []) ∷ ("message", text "I like tea") ∷ [])

abbrev reader : Python
reader = reading envelope

abbrev remember_call : ToolCall
remember_call = call_named Memory.tool_name (
    object (("op", text "remember") ∷ ("topic", text "drinks") ∷ ("quote", text "I like tea") ∷ []))

abbrev remember_response : AssistantMessage
remember_response = reply_with "a1" "" (remember_call ∷ [])

abbrev remembering : List Message
remembering = user "u1" "{}" ∷ assistant remember_response ∷ []

proposed-IsOwnWords_example :
    (proposed reader team remembering ≡ [])
    ⊎ ((earlier : List Message) × (turn : List Message) × (remembering ≡ earlier ++ turn)
        × All
            (IsOwnWords reader team (current_message reader team turn))
            (proposed reader team remembering))
proposed-IsOwnWords_example = proposed-IsOwnWords reader team remembering

abbrev remembered : Change
remembered = record { op = "remember"; topic = "drinks"; preference = "I like tea" }

abbrev verdict : Option Value
verdict = some (object (("lasting", array (bool true ∷ [])) ∷ []))

accepted_checks_example :
    ((flags : List Bool) × (verdict ≡ some (lasting_value flags))
      × (length flags ≡ 1)
      × (accepted (remembered ∷ []) verdict ≡ confirmed (remembered ∷ []) flags))
    ⊎ ((accepted (remembered ∷ []) verdict ≡ []) × ¬ (Answers (remembered ∷ []) verdict))
accepted_checks_example = accepted_checks (remembered ∷ []) verdict

latest-remembering : latest remembering ≡ some remember_response
unfolding latest
latest-remembering = refl

calls-remember_response : calls_to_tool remember_response ≡ remember_call ∷ []
unfolding calls_to_tool
calls-remember_response = refl

review-remembering : Memory.review reader team remembering true ≡ ok none
unfolding Memory.review latest calls_to_tool change shimpz_brain.Json.has_exactly object
    shimpz_brain.Json.str_of text Memory.quote_line Memory.comparable current_message
    Memory.last_user_text Memory.turn_message shimpz_brain.Json.array_of array Memory.own_words
    Memory.str_contains shimpz_brain.Conversation.as_assistant shimpz_brain.Conversation.as_tool
    shimpz_brain.Conversation.is_user shimpz_brain.Json.Types.get shimpz_brain.Json.as_array
    shimpz_brain.Json.as_str shimpz_brain.Json.members Memory.join proposed Memory.proposed_in
    Memory.ran Memory.since_user Memory.split_from
review-remembering = refl

memory_review_pass_example :
    (true ≡ true)
    × All
        (λ c.
          is_some
            (change reader team (ToolCall.arguments c) (current_message reader team remembering))
          ≡ true)
        (calls_to_tool remember_response)
    × (length (proposed reader team remembering) + length (calls_to_tool remember_response) ≤ 32)
memory_review_pass_example =
    memory_review_pass reader team remembering true remember_response latest-remembering
      (ground (arith, calls-remember_response)) review-remembering
