-- ===== src/Examples/Conversations.antt =====
-- The theorems on stored conversations and on the token budget, at concrete histories.
use mathlib.Core.List.{reverse, Perm}
use shimpz_brain.Json.Types.{Value, str, get, null}
use shimpz_brain.Python.{Python}
use shimpz_brain.Base.{
  ◌<◌, String, Bool, filter, leb, if◌then◌else◌, ◌≤◌, true, false, Option, some, List, [], ◌∷◌, ◌≡◌,
  ◌≢◌, refl, arith, map, concat, All, length, ok,
}
use shimpz_brain.Conversation.{
  ToolMessage, user, assistant, tool, message_id, Message, to_value, from_value,
}
use shimpz_brain.Conversation.RoundTrip.{
  IsStorable, IsStored, from_value-to_value, from_value-IsStored,
}
use shimpz_brain.Budget.{
  Limits, older, window_within, dropped, eligible, saturating_add, placeholder, gain,
  omitted_result, omit_within, keep_result_exchanges, exchanges, drop_within,
}
use shimpz_brain.Budget.History.{selected, fit, kept_tokens, drop_within_bounds, drop_within-fit}
use shimpz_brain.Budget.Omission.{savings, omittable, omit_within-omittable, omit_within_saves}
use shimpz_brain.Budget.Split.{split_on, exchanges-split_on}
use shimpz_brain.Budget.Exchanges.{IsExchange, HasId, exchanges_partition}
use shimpz_brain.Examples.{
  call_named, py, history, reply_with, question, answered, thanks, forecast,
}

stored : (words : String) {id : String} → IsStorable (reply_with id words [])
stored words = record {
  calls_ok = tt;
  raw_ok = λ e. absurd (cc);
  attempts_pos = omega arith;
  attempts_u32 = omega arith;
}

history-All-IsStored : All IsStored history
history-All-IsStored = (tt, (stored "Sunny.", (tt, (stored "Rain.", tt))))

from_value-to_value_example : from_value (to_value history) ≡ some history
from_value-to_value_example = from_value-to_value history history-All-IsStored

from_value-IsStored_example : All IsStored history
from_value-IsStored_example =
    from_value-IsStored (to_value history) history from_value-to_value_example

exchanges-split_on_example : exchanges history ≡ split_on [] history
exchanges-split_on_example = exchanges-split_on history

-- Two exchanges.
abbrev groups : List (List Message)
groups = (question ∷ answered ∷ []) ∷ (thanks ∷ forecast ∷ []) ∷ []

exchanges-history : exchanges history ≡ ok groups
unfolding exchanges shimpz_brain.Budget.starts_from shimpz_brain.Conversation.message_id
    shimpz_brain.Conversation.is_user shimpz_brain.Budget.joins shimpz_brain.Budget.cut
    shimpz_brain.Budget.slice
exchanges-history = refl

exchanges_partition_example : (concat groups ≡ history) × All IsExchange groups × All HasId history
exchanges_partition_example = exchanges_partition history groups exchanges-history

history-All-HasId : All HasId history
unfolding shimpz_brain.Conversation.message_id
history-All-HasId = (refl, (refl, (refl, (refl, tt))))

-- Room for one exchange.
abbrev one_exchange : Limits
one_exchange = record { exchanges = 1; history = 100000; window = 1000000; omit_trigger = 1 }

dropped-history : drop_within py one_exchange history 10 20 (λ m. false) ≡ ok ("u1" ∷ "a1" ∷ [])
unfolding drop_within shimpz_brain.Budget.window_within exchanges shimpz_brain.Budget.starts_from
    shimpz_brain.Conversation.message_id shimpz_brain.Conversation.is_user shimpz_brain.Budget.joins
    shimpz_brain.Budget.dropped shimpz_brain.Budget.cut shimpz_brain.Budget.keep_from
    shimpz_brain.Budget.eligible shimpz_brain.Budget.completed shimpz_brain.Budget.slice
    shimpz_brain.Budget.final_reply shimpz_brain.Budget.breaks shimpz_brain.Budget.group_tokens
    shimpz_brain.Budget.message_tokens shimpz_brain.Budget.estimated_tokens
    shimpz_brain.Budget.estimated_value shimpz_brain.Budget.is_bridge shimpz_brain.Json.array
    shimpz_brain.Json.object shimpz_brain.Json.text
dropped-history = refl

drop_within_bounds_example :
    (kept : List (List Message)) × Perm
      ("u1" ∷ "a1" ∷ map message_id (concat (reverse kept)))
      (map message_id history)
    × All (λ g. eligible py (λ m. false) g ≡ true) kept
    × (length kept ≤ 1)
    × (kept_tokens py one_exchange 10 20 (λ m. false) 0 kept ≤ 100000)
    × (window_within one_exchange
          (saturating_add 10 (kept_tokens py one_exchange 10 20 (λ m. false) 0 kept))
          20
        ≡ ok tt)
drop_within_bounds_example =
    drop_within_bounds py one_exchange 10 20 (λ m. false) history ("u1" ∷ "a1" ∷ []) (omega arith)
      dropped-history

window-one_exchange : window_within one_exchange 10 20 ≡ ok tt
unfolding window_within
window-one_exchange = refl

drop_within-fit_example :
    (flags : List Bool) × (length flags ≡ 2)
    × (drop_within py one_exchange history 10 20 (λ m. false) ≡ ok (dropped groups flags))
    × (selected groups flags
        ≡ reverse (
            fit py one_exchange 10 20
              (λ m. false)
              0
              0
              (filter (eligible py (λ m. false)) (reverse groups))))
drop_within-fit_example =
    drop_within-fit py one_exchange 10 20 (λ m. false) history groups window-one_exchange
      exchanges-history

-- Three exchanges, the oldest with an Action's long result.
abbrev long_result : ToolMessage
long_result = record {
  id = "t1";
  call_id = "c1";
  name = "a_mail__a_list__00";
  content =
      "message 1 from the office of somebody with a long name message 2 from the office of somebody with a long name message 3 from the office of somebody with a long name message 4 from the office of somebody with a long name message 5 from the office of somebody with a long name message 6 from the office of somebody with a long name message 7 from the office of somebody with a long name message 8 from the office of somebody with a long name message 9 from the office of somebody with a long name message 10 from the office of somebody with a long name message 11 from the office of somebody with a long name message 12 from the office of somebody with a long name";
  error = false;
}

abbrev asked : List Message
asked =
    question
    ∷ assistant (reply_with "a0" "" (call_named "a_mail__a_list__00" null ∷ []))
    ∷ tool long_result
    ∷ answered
    ∷ []

abbrev three : List (List Message)
three =
    asked
    ∷ (thanks ∷ forecast ∷ [])
    ∷ (user "u3" "And now?" ∷ assistant (reply_with "a3" "Sun." []) ∷ [])
    ∷ []

exchanges-three : exchanges (concat three) ≡ ok three
unfolding exchanges shimpz_brain.Budget.starts_from message_id shimpz_brain.Conversation.is_user
    shimpz_brain.Budget.joins shimpz_brain.Budget.cut shimpz_brain.Budget.slice
exchanges-three = refl

abbrev any_tool : ToolMessage → Bool
any_tool r = true

abbrev unforgotten : Message → Bool
unforgotten m = false

omit_within-omittable_example :
    omit_within py one_exchange (concat three) any_tool unforgotten
    ≡ ok (
        if leb 1
          (savings py any_tool 0 (omittable py any_tool (concat (older py unforgotten three))))
        then map (placeholder py) (omittable py any_tool (concat (older py unforgotten three)))
        else [])
omit_within-omittable_example =
    omit_within-omittable py one_exchange any_tool unforgotten (concat three) three exchanges-three

-- A writer that keeps the content, for its length.
abbrev content_of : Option Value → String
content_of (some (str s)) = s
content_of _ = "{}"

abbrev weighing : Python
weighing = record py { compact = λ v. content_of (get v "content") }

-- What the batch omits: the long result's placeholder.
omitted-three :
    omit_within weighing one_exchange (concat three) any_tool unforgotten
    ≡ ok (placeholder weighing long_result ∷ [])
unfolding omit_within exchanges shimpz_brain.Budget.starts_from message_id
    shimpz_brain.Conversation.is_user shimpz_brain.Budget.joins shimpz_brain.Budget.omit_from older
    shimpz_brain.Budget.cut eligible shimpz_brain.Budget.completed shimpz_brain.Budget.slice
    shimpz_brain.Budget.final_reply gain shimpz_brain.Budget.message_tokens
    shimpz_brain.Budget.estimated_tokens placeholder get shimpz_brain.Budget.estimated_value
    shimpz_brain.Json.text shimpz_brain.Json.object shimpz_brain.Json.array
omitted-three = refl

omit_within_saves_example :
    (rs : List ToolMessage) × (placeholder weighing long_result ∷ []
      ≡ map (placeholder weighing) rs)
    × All (λ r. (any_tool r ≡ true) × (0 < gain weighing r) × (r.content ≢ omitted_result)) rs
    × (1 ≤ savings weighing any_tool 0 rs)
omit_within_saves_example =
    omit_within_saves weighing one_exchange any_tool unforgotten (concat three) three
      (placeholder weighing long_result ∷ []) exchanges-three omitted-three (λ e. absurd (cc))
