-- ===== src/Turn/Context/RoundTrip.antt =====
-- The pinned context survives the run journal: runtime/src/turn/context.rs, both directions.
use shimpz_brain.Base.{
  ℕ, ◌<◌, ◌^◌, String, Option, none, some, List, ◌≡◌, ◌≢◌, refl, map, collect, collect-map, arith,
}
use shimpz_brain.Json.Types.{Value, null, values, of_values, values-of_values, get}
use shimpz_brain.Json.{
  object, array, text, uint, str_of, u64_of, bool_of, array_of, has_exactly, as_u64,
}
use shimpz_brain.Turn.Context.{
  ProviderId, open_ai, anthropic, provider_as_str, provider_parse, ActionDefinition,
  AssistantDefinition, Memory, TurnContext, optional, optional_list, optional_text, action_value,
  assistant_value, memory_value, memories_value, context_value, read_nullable, nullable, list,
  string, strings, action_from, assistant_from, memory_from, memories_from, pins_from, context_from,
}

-- What a context must not hold to be read back: a present `null` where `null` means absent, or a
-- charge outside `i64`, which is written as text.
pub record IsPinnable (c : TurnContext) : Type 0 where
  pub question_ok : c.routine_question ≢ some null
  pub schedule_ok : c.routine_schedule ≢ some null
  pub selected_ok : c.routine_selected ≢ some null
  pub charge_i64 : c.attachments.charge < 2 ^ 63

provider_parse-as_str : (p : ProviderId) → provider_parse (provider_as_str p) ≡ some p
unfolding provider_parse provider_as_str
provider_parse-as_str open_ai = refl
provider_parse-as_str anthropic = refl

strings_back : (ss : List String) → strings (array (map text ss)) ≡ some ss
unfolding strings array
strings_back ss =
    rw (values-of_values (map text ss))
      (collect-map text string (unfold text string in λ s. refl) ss)

action_back : (a : ActionDefinition) → action_from (action_value a) ≡ some a
unfolding action_from action_value object text str_of bool_of get has_exactly
action_back a = rw (strings_back a.input_files)

memory_back : (m : Memory) → memory_from (memory_value m) ≡ some m
unfolding memory_from memory_value object text str_of has_exactly get
memory_back m = refl

pub uint_back : (n : ℕ) → n < 2 ^ 63 → as_u64 (uint n) ≡ some n
unfolding as_u64 uint
uint_back n h = ground arith

assistant_back : (a : AssistantDefinition) → assistant_from (assistant_value a) ≡ some a
unfolding assistant_from assistant_value object array text str_of array_of has_exactly get
assistant_back a = rw (
  values-of_values (map action_value a.actions),
  collect-map action_value action_from action_back a.actions,
)

memories_back : (o : Option (List Memory)) → read_nullable memories_from (memories_value o) ≡ some o
unfolding read_nullable memories_value memories_from array
memories_back none = refl
memories_back (some ms) =
    rw (values-of_values (map memory_value ms), collect-map memory_value memory_from memory_back ms)

optional_back : (o : Option Value) → o ≢ some null → read_nullable some (optional o) ≡ some o
unfolding read_nullable optional
optional_back none h = refl
optional_back (some null) h = absurd (h refl)
optional_back (some _) h = refl

list_back : (o : Option (List Value)) → read_nullable list (optional_list o) ≡ some o
unfolding read_nullable optional_list list array
list_back none = refl
list_back (some vs) = rw (values-of_values vs)

text_back : (o : Option String) → read_nullable string (optional_text o) ≡ some o
unfolding read_nullable optional_text string text
text_back none = refl
text_back (some s) = refl

assistants_back :
    (as_list : List AssistantDefinition)
    → collect assistant_from (values (of_values (map assistant_value as_list))) ≡ some as_list
assistants_back as_list =
    rw (values-of_values (map assistant_value as_list))
      (collect-map assistant_value assistant_from assistant_back as_list)

pins_back :
    (c : TurnContext)
    → c.attachments.charge < 2 ^ 63
    → pins_from (context_value c) ≡ some c.attachments
unfolding pins_from context_value object text str_of u64_of get
pins_back c h = rw (strings_back c.attachments.kinds, uint_back c.attachments.charge h)

-- A pinned context is read back from its JSON form exactly.
pub context_from-context_value :
    (c : TurnContext) → IsPinnable c → context_from (context_value c) ≡ some c
unfolding context_from context_value nullable object array text str_of array_of bool_of get
    has_exactly
context_from-context_value c h =
    rw
      (
        list_back c.routines,
        optional_back c.routine_question h.question_ok,
        list_back c.routine_rerun,
        optional_back c.routine_schedule h.schedule_ok,
      )
      (rw
        (
          text_back c.routine_output,
          optional_back c.routine_selected h.selected_ok,
          text_back c.locale,
          text_back c.turn_message_id,
        )
        (rw (assistants_back c.assistants, provider_parse-as_str c.provider)
          (rw (memories_back c.memories, pins_back c h.charge_i64))))
