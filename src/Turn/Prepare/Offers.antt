-- ===== src/Turn/Prepare/Offers.antt =====
-- Which tools a turn offers: runtime/src/turn/service/prepare.rs, `surface` and `offered_tools`, with
-- runtime/src/attachments.rs, `exposed`.
use mathlib.Core.List.{Memᴰ}
use mathlib.Core.List.Memᴰ
use shimpz_brain.Base.{
  ◌≡◌, refl, subst, sym, ◌∙◌, Result, ok, err, arith, List, [], ◌∷◌, Bool, true, false, not, ◌&&◌,
  map, filter, All, All-append, is_some, if◌then◌else◌,
}
use shimpz_brain.Base.Results.{>>=-eq-ok}
use shimpz_brain.Json.Types.{Value}
use shimpz_brain.Errors.{BrainError, contract}
use shimpz_brain.Attachments.Admission.Bounds.{Distinct, distinct-Distinct}
use shimpz_brain.Attachments.Projection.{authorizing, exposed}
use shimpz_brain.Tools.Browser
use shimpz_brain.Turn.Context.{
  ActionDefinition, AssistantDefinition, TurnContext, carries_any, reads_content,
}
use shimpz_brain.Turn.Run.{ToolSpec}
use shimpz_brain.Turn.Prepare.Inputs.{Workshop}
use shimpz_brain.Turn.Prepare.Surface.{
  Surface, action_name, action_spec, action_tools, own_tools, when_offered, offered_tools,
  exposed_of, surface,
}

kept_cons :
    (action other : ActionDefinition) (rest kept : List ActionDefinition) (b : Bool)
    → other.authorization ≡ b
    → (Memᴰ action kept → Memᴰ action rest × (action.authorization ≡ true))
    → Memᴰ action (if b then other ∷ kept else kept)
    → Memᴰ action (other ∷ rest) × (action.authorization ≡ true)
kept_cons action other rest kept true h ih (Memᴰ.head e) = (Memᴰ.head e, rw e h)
kept_cons action other rest kept true h ih (Memᴰ.tail m) = (Memᴰ.tail (ih m).0, (ih m).1)
kept_cons action other rest kept false h ih m = (Memᴰ.tail (ih m).0, (ih m).1)

kept_authorizes :
    (action : ActionDefinition) (actions : List ActionDefinition)
    → Memᴰ action (filter (λ (other : ActionDefinition). other.authorization) actions)
    → Memᴰ action actions × (action.authorization ≡ true)
kept_authorizes action [] m = absurd (Memᴰ.not-nil m)
kept_authorizes action (other ∷ actions) m =
    kept_cons action other actions _ other.authorization refl (kept_authorizes action actions) m

unless : (b c : Bool) → not b && c ≡ true → b ≡ false
unless true c h = absurd (ground arith)
unless false c h = refl

module _ (shop : Workshop) (context : TurnContext) where
  -- What a turn may offer.
  pub data Offered : ToolSpec → Type 0 where
    action_tool :
        (a : AssistantDefinition) (action : ActionDefinition)
        → Memᴰ a context.assistants
        → Memᴰ action a.actions
        → (reads_content context.attachments ≡ true → action.authorization ≡ true)
        → context.routine_settings_answer ≡ false
        → Offered (action_spec shop a action)
    clarification : Offered shop.clarification_spec
    browser : Browser.offered context ≡ true → Offered shop.browser_spec
    memory : carries_any context.attachments ≡ false → Offered shop.memory_spec
    routine :
        is_some context.routines ≡ true
        → Offered (shop.routine_spec (is_some context.routine_selected))

  when_offered-All :
      (b : Bool) (tool : ToolSpec) → (b ≡ true → Offered tool) → All Offered (when_offered b tool)
  when_offered-All true tool h = (h refl, tt)
  when_offered-All false tool h = tt

  own-All :
      (memory_tool : Bool)
      → (memory_tool ≡ true → carries_any context.attachments ≡ false)
      → All Offered
          (own_tools shop context (Browser.offered context) memory_tool (is_some context.routines))
  unfolding own_tools
  own-All memory_tool h = (
    clarification,
    All-append Offered (when_offered (Browser.offered context) shop.browser_spec) _
        (when_offered-All (Browser.offered context) shop.browser_spec browser)
        (All-append Offered (when_offered memory_tool shop.memory_spec) _
          (when_offered-All memory_tool shop.memory_spec λ e. memory (h e))
          (when_offered-All (is_some context.routines) _ routine)),
  )

  actions-All :
      (a : AssistantDefinition) (actions : List ActionDefinition)
      → Memᴰ a context.assistants
      → ((action : ActionDefinition)
          → Memᴰ action actions
          → Memᴰ action a.actions
            × (reads_content context.attachments ≡ true → action.authorization ≡ true))
      → context.routine_settings_answer ≡ false
      → All Offered (map (action_spec shop a) actions)
  actions-All a [] member known settings = tt
  actions-All a (action ∷ actions) member known settings =
      let (stands, authorizes) = known action (Memᴰ.head refl) in
      (
        action_tool a action member stands authorizes settings,
        actions-All a actions member (λ other m. known other (Memᴰ.tail m)) settings,
      )

  all_exposed :
      (shown : List AssistantDefinition)
      → ((a : AssistantDefinition) → Memᴰ a shown → Memᴰ a context.assistants)
      → reads_content context.attachments ≡ false
      → context.routine_settings_answer ≡ false
      → All Offered (action_tools shop shown)
  unfolding action_tools
  all_exposed [] among reads settings = tt
  all_exposed (a ∷ shown) among reads settings =
      All-append Offered (map (action_spec shop a) a.actions) _
        (actions-All a a.actions (among a (Memᴰ.head refl))
          (λ action m. (m, λ e. absurd (ground arith))) settings)
        (all_exposed shown (λ b m. among b (Memᴰ.tail m)) reads settings)

  authorizing_exposed :
      (shown : List AssistantDefinition)
      → ((a : AssistantDefinition) → Memᴰ a shown → Memᴰ a context.assistants)
      → context.routine_settings_answer ≡ false
      → All Offered (action_tools shop (map authorizing shown))
  unfolding action_tools authorizing action_spec action_name
  authorizing_exposed [] among settings = tt
  authorizing_exposed (a ∷ shown) among settings =
      All-append Offered (map (action_spec shop (authorizing a)) (authorizing a).actions) _
        (actions-All a (authorizing a).actions (among a (Memᴰ.head refl))
          (λ action m.
            let (stands, authorizes) = kept_authorizes action a.actions m in
            (stands, λ _. authorizes))
          settings)
        (authorizing_exposed shown (λ b m. among b (Memᴰ.tail m)) settings)

  shown_when :
      (settings reads : Bool)
      → context.routine_settings_answer ≡ settings
      → reads_content context.attachments ≡ reads
      → All Offered (action_tools shop (if settings then [] else exposed context.assistants reads))
  unfolding exposed
  shown_when true reads settled read = unfold action_tools in tt
  shown_when false true settled read = authorizing_exposed context.assistants (λ a m. m) settled
  shown_when false false settled read = all_exposed context.assistants (λ a m. m) read settled

  shown-All : All Offered (action_tools shop (exposed_of shop context))
  unfolding exposed_of
  shown-All =
      shown_when context.routine_settings_answer (reads_content context.attachments) refl refl

  abbrev named_apart :
      Bool → List ToolSpec → List Value → Result (List ToolSpec × List Value) BrainError
  named_apart apart tools summaries =
      if apart then ok (tools, summaries) else err (contract "Action tool name collision")

  offered_within :
      (apart : Bool) (tools : List ToolSpec) (summaries : List Value)
      (offered : List ToolSpec × List Value)
      → named_apart apart tools summaries ≡ ok offered
      → (apart ≡ true) × (offered.0 ≡ tools)
  offered_within true tools summaries offered h = (refl, ground arith)
  offered_within false tools summaries offered h = absurd (ground arith)

  -- Every tool that a turn offers has a name of its own, and is allowed there: an Action of one of
  -- the turn's Assistants, of which attachment content leaves only those that a person authorizes
  -- and a settings answer none; the question tool; the Browser, the memory and the Routine tool,
  -- each only where the turn may use it.
  pub surface-Offered :
      (s : Surface)
      → surface shop context ≡ ok s
      → Distinct (map (λ (tool : ToolSpec). tool.name) s.tools) × All Offered s.tools
  unfolding surface offered_tools
  surface-Offered s h =
      let memory_tool : Bool = not (carries_any context.attachments) && is_some context.memories in
      let (offered, chosen, last) = >>=-eq-ok _ _ h in
      let (apart, tools) = offered_within _ _ _ offered chosen in
      let here : offered.0 ≡ s.tools = ground arith in
      subst
        (λ (l : List ToolSpec). Distinct (map (λ (tool : ToolSpec). tool.name) l) × All Offered l)
        (sym tools ∙ here)
        (
          distinct-Distinct _ apart,
          All-append Offered _ _ shown-All
              (own-All memory_tool (unless _ (is_some context.memories))),
        )
