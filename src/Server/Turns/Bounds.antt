-- ===== src/Server/Turns/Bounds.antt =====
-- What an admitted start request is: runtime/src/server/turn_input.rs, `start` and `build`.
use shimpz_brain.Base.{
  ◌≤◌, ◌≡◌, refl, subst, ap, arith, String, Bool, true, false, List, [], ◌∷◌, map, ltb, All, length,
  Result, ok, err, if◌then◌else◌,
}
use shimpz_brain.Base.Results.{>>=-eq-ok}
use shimpz_brain.Base.Sort.{sort_by}
use shimpz_brain.Json.Types.{Value}
use shimpz_brain.Json.{array}
use shimpz_brain.Errors.{BrainError}
use shimpz_brain.Attachments.Types.{Attachment}
use shimpz_brain.Attachments.Admission.{admit, distinct}
use shimpz_brain.Attachments.Admission.Bounds.{
  Distinct, distinct-Distinct, IsAdmitted, admit-IsAdmitted,
}
use shimpz_brain.Turn.Context.{AssistantDefinition, TurnContext, provider_as_str}
use shimpz_brain.Turn.Prepare.Inputs.{TurnRequest, ProviderConfig}
use shimpz_brain.Server.Input.{RouteError, refuse, is_chat_model, provider, provider_any}
use shimpz_brain.Server.Turns.{
  max_chat_assistants, Shape, memories_in, of_brain, attached, admit_turn, context_of, read_fields,
  build,
}
use shimpz_brain.Server.Turns.Recording.{admit_context}
use shimpz_brain.Server.Turns.Assistants.{Front, each, assistant}
use shimpz_brain.Server.Turns.Assistants.Sorted.{Distinct-sort, length-sort, All-sort_by}
use shimpz_brain.Server.Turns.Assistants.Bounds.{IsAssistant, assistant-IsAssistant}

pub All-each :
    {A B : Type 0} (P : B → Type 0) (f : A → Result B RouteError)
    → ((a : A) (b : B) → f a ≡ ok b → P b)
    → (xs : List A) (ys : List B) → each f xs ≡ ok ys
    → All P ys
unfolding each
All-each P f holds [] [] h = tt
All-each P f holds [] (y ∷ ys) h = absurd (ground arith)
All-each P f holds (x ∷ xs) ys h =
    let (y, first, rest) = >>=-eq-ok (f x) _ h in
    let (later, all, last) = >>=-eq-ok (each f xs) (λ bs. ok (y ∷ bs)) rest in
    let same : y ∷ later ≡ ys = ground arith in
    subst (λ (l : List _). All P l) same (holds x y first, All-each P f holds xs later all)

pub then_ok :
    {A : Type 0} (b : Bool) (detail : String) (a x : A)
    → (if b then ok a else refuse detail) ≡ ok x
    → (b ≡ true) × (a ≡ x)
then_ok true detail a x h = (refl, ground arith)
then_ok false detail a x h = absurd (ground arith)

pub else_ok :
    {A : Type 0} (b : Bool) (detail : String) (a x : A)
    → (if b then refuse detail else ok a) ≡ ok x
    → (b ≡ false) × (a ≡ x)
else_ok false detail a x h = (refl, ground arith)
else_ok true detail a x h = absurd (ground arith)

abbrev id_of : AssistantDefinition → String
id_of a = a.id

module _ (front : Front) where
  -- The turn that an admitted request carries.
  pub record IsTurn (t : TurnRequest) : Type 0 where
    pub few : length t.context.assistants ≤ max_chat_assistants
    pub apart : Distinct (map (λ (a : AssistantDefinition). a.id) t.context.assistants)
    pub assistants : All IsAssistant t.context.assistants
    pub files : IsAdmitted front.py front.rules t.attachments
    pub chat :
        is_chat_model front.catalog (provider_as_str t.provider.provider) t.provider.model ≡ true

  admit_turn_parts :
      (context turn : TurnContext)
      → admit_turn front context ≡ ok turn
      → (distinct (map id_of context.assistants) ≡ true)
        × (length context.assistants ≤ max_chat_assistants)
        × (sort_by id_of context.assistants ≡ turn.assistants)
  unfolding admit_turn
  admit_turn_parts context turn h =
      let (_, safe, h1) =
        >>=-eq-ok
          (if front.safe_id context.thread_id then ok tt else refuse "invalid conversation thread")
          _ h in
      let (_, small, h2) =
        >>=-eq-ok
          (if ltb max_chat_assistants (length context.assistants)
            then refuse "a turn may name at most 16 Assistants"
            else ok tt)
          _ h1 in
      let (few, _) = else_ok _ _ tt _ small in
      let (apart, same) =
        then_ok (distinct (map id_of context.assistants)) "duplicate Assistant id"
          (record context { assistants = sort_by id_of context.assistants }) turn h2 in
      (apart, ground (arith, few), ap (λ (c : TurnContext). c.assistants) same)

  provider_chat :
      (value : Value) (config : ProviderConfig)
      → provider front.catalog value ≡ ok config
      → is_chat_model front.catalog (provider_as_str config.provider) config.model ≡ true
  unfolding provider
  provider_chat value config h =
      let (found, read, h1) = >>=-eq-ok (provider_any value) _ h in
      let (chat, same) =
        then_ok (is_chat_model front.catalog (provider_as_str found.provider) found.model)
          "unsupported model for provider" found config h1 in
      subst
        (λ (c : ProviderConfig).
          is_chat_model front.catalog (provider_as_str c.provider) c.model ≡ true)
        same chat

  attached_admitted :
      (r : Result (List Attachment) BrainError) (items : List Attachment)
      → attached front r ≡ ok items
      → r ≡ ok items
  attached_admitted (ok a) items h = ground arith
  attached_admitted (err e) items h = absurd (ground arith)

  turn_bounds :
      (assistants : List AssistantDefinition) (t : TurnRequest) (shape : Shape)
      → each (assistant front) shape.assistants ≡ ok assistants
      → distinct (map id_of assistants) ≡ true
      → length assistants ≤ max_chat_assistants
      → sort_by id_of assistants ≡ t.context.assistants
      → admit front.py front.rules (array shape.attachments) ≡ ok t.attachments
      → is_chat_model front.catalog (provider_as_str t.provider.provider) t.provider.model ≡ true
      → IsTurn t
  turn_bounds assistants t shape read apart few sorted files chat = record {
    few =
        subst (λ (l : List AssistantDefinition). length l ≤ max_chat_assistants) sorted
          (rw (length-sort id_of assistants) few);
    apart =
        subst (λ (l : List AssistantDefinition). Distinct (map id_of l)) sorted
          (Distinct-sort id_of assistants (distinct-Distinct _ apart));
    assistants =
        subst (λ (l : List AssistantDefinition). All IsAssistant l) sorted
          (All-sort_by id_of IsAssistant assistants (
            All-each IsAssistant (assistant front) (assistant-IsAssistant front) _ assistants
              read));
    files = (admit-IsAdmitted front.py front.rules _ t.attachments files).0;
    chat = chat;
  }

  -- Every turn that is built of a request is admitted.
  pub build-IsTurn :
      (body : Value) (shape : Shape) (t : TurnRequest) → build front body shape ≡ ok t → IsTurn t
  unfolding build context_of
  build-IsTurn body shape t h =
      let (assistants, read, h1) = >>=-eq-ok (each (assistant front) shape.assistants) _ h in
      let (config, chosen, h2) = >>=-eq-ok (provider front.catalog body) _ h1 in
      let (memories, _, h3) = >>=-eq-ok (memories_in front shape.memories) _ h2 in
      let (items, files, h4) =
        >>=-eq-ok (attached front (admit front.py front.rules (array shape.attachments))) _ h3 in
      let (fields, _, h5) = >>=-eq-ok (read_fields body) _ h4 in
      let context : TurnContext = context_of front shape assistants config memories items fields in
      let (_, recording, h6) = >>=-eq-ok (of_brain front (admit_context front context)) _ h5 in
      let (turn, admits, last) = >>=-eq-ok (admit_turn front context) _ h6 in
      let (apart, few, sorted) = admit_turn_parts context turn admits in
      let found : TurnRequest = record { context = turn; provider = config; attachments = items } in
      let same : found ≡ t = ground arith in
      subst (λ (r : TurnRequest). IsTurn r) same
        (turn_bounds assistants found shape read apart few sorted (attached_admitted _ items files)
          (provider_chat body config chosen))
