-- ===== src/Server/Turns/Assistants/Bounds.antt =====
-- What an admitted Assistant is: runtime/src/server/turn_input.rs, `assistant`.
use shimpz_brain.Base.{
  ℕ, ◌≤◌, ◌≡◌, sym, subst, ◌∙◌, arith, String, str_eq, true, ◌&&◌, Option, none, some, List, [],
  ◌∷◌, map, Result, ok, if◌then◌else◌, length,
}
use shimpz_brain.Base.Results.{>>=-eq-ok}
use shimpz_brain.Base.Sort.{sort_by}
use shimpz_brain.Json.Types.{Value, null, bool, num, str, arr, obj}
use shimpz_brain.Attachments.Admission.{distinct}
use shimpz_brain.Attachments.Admission.Bounds.{Distinct, distinct-Distinct}
use shimpz_brain.Text.{printable_with_layout}
use shimpz_brain.Turn.Context.{ActionDefinition, AssistantDefinition}
use shimpz_brain.Server.Input.{RouteError, refuse, string, list, list_in}
use shimpz_brain.Server.Turns.Assistants.{
  Front, max_genesis_chars, max_actions_per_assistant, each, action, max_assistant_schema_nodes,
  schemas_of, schemas_fit, actions_admitted, assistant,
}
use shimpz_brain.Server.Turns.Assistants.Nodes.{nodes_in, schemas_fit-nodes}
use shimpz_brain.Server.Turns.Assistants.Sorted.{Distinct-sort, length-sort, nodes-sort}

pub each-length :
    {A B : Type 0} (f : A → Result B RouteError) (xs : List A) (ys : List B)
    → each f xs ≡ ok ys
    → length ys ≡ length xs
unfolding each
each-length f [] ys h = ground arith
each-length f (x ∷ xs) ys h =
    let (y, first, rest) = >>=-eq-ok (f x) _ h in
    let (later, all, last) = >>=-eq-ok (each f xs) (λ bs. ok (y ∷ bs)) rest in
    let longer = each-length f xs later all in ground (arith, longer)

-- What an admitted Assistant is: its Actions few, with different ids, and their schemas together
-- within the bound.
pub record IsAssistant (a : AssistantDefinition) : Type 0 where
  pub few : length a.actions ≤ max_actions_per_assistant
  pub apart : Distinct (map (λ (action : ActionDefinition). action.id) a.actions)
  pub small : nodes_in (schemas_of a.actions) ≤ max_assistant_schema_nodes

pub list_in_few :
    (o : Option Value) (max : ℕ) (items : List Value)
    → list_in o 0 max ≡ ok items
    → length items ≤ max
unfolding list_in
list_in_few none max items h = absurd (ground arith)
list_in_few (some null) max items h = absurd (ground arith)
list_in_few (some (bool b)) max items h = absurd (ground arith)
list_in_few (some (num n)) max items h = absurd (ground arith)
list_in_few (some (str s)) max items h = absurd (ground arith)
list_in_few (some (obj ms)) max items h = absurd (ground arith)
list_in_few (some (arr vs)) max items h = ground (arith, h)

module _ (front : Front) where
  admitted_parts :
      (actions kept : List ActionDefinition)
      → actions_admitted front actions ≡ ok kept
      → (distinct (map (λ (a : ActionDefinition). a.id) actions) ≡ true)
        × (schemas_fit max_assistant_schema_nodes (schemas_of actions) ≡ true)
        × (kept ≡ sort_by (λ (a : ActionDefinition). a.id) actions)
  unfolding actions_admitted
  admitted_parts actions kept h = ground arith

  kept_actions :
      (items : List Value) (actions : List ActionDefinition) (a : AssistantDefinition)
      (kept : List ActionDefinition)
      → length items ≤ max_actions_per_assistant
      → length actions ≡ length items
      → actions_admitted front actions ≡ ok kept
      → kept ≡ a.actions
      → IsAssistant a
  kept_actions items actions a kept few read checked same =
      let key : ActionDefinition → String = λ action. action.id in
      let (apart, fits, sorted) = admitted_parts actions kept checked in
      let ordered : sort_by key actions ≡ a.actions = sym sorted ∙ same in
      record {
        few =
            subst (λ (l : List ActionDefinition). length l ≤ max_actions_per_assistant) ordered
              (rw (length-sort key actions, read) few);
        apart =
            subst (λ (l : List ActionDefinition). Distinct (map key l)) ordered
              (Distinct-sort key actions (distinct-Distinct (map key actions) apart));
        small =
            subst
              (λ (l : List ActionDefinition). nodes_in (schemas_of l) ≤ max_assistant_schema_nodes)
              ordered (rw (nodes-sort key actions) (schemas_fit-nodes _ _ fits));
      }

  -- An admitted Assistant has at most 128 Actions, with different ids, whose schemas together hold
  -- at most 32,768 JSON values.
  pub assistant-IsAssistant :
      (value : Value) (a : AssistantDefinition) → assistant front value ≡ ok a → IsAssistant a
  unfolding assistant list
  assistant-IsAssistant value a h =
      let (id, got_id, h1) = >>=-eq-ok (string value "id" 1 128) _ h in
      let (_, id_admitted, h2) =
        >>=-eq-ok (if front.assistant_id id then ok tt else refuse "invalid Assistant id") _ h1 in
      let (genesis, got_genesis, h3) =
        >>=-eq-ok (string value "genesis" 1 max_genesis_chars) _ h2 in
      let (_, genesis_admitted, h4) =
        >>=-eq-ok
          (if str_eq (front.py.strip genesis) genesis && printable_with_layout front.py genesis
            then ok tt
            else refuse "invalid Assistant Genesis")
          _ h3 in
      let (items, listed, h5) = >>=-eq-ok (list value "actions" 0 max_actions_per_assistant) _ h4 in
      let (actions, read, h6) = >>=-eq-ok (each (action front) items) _ h5 in
      let (kept, checked, h7) = >>=-eq-ok (actions_admitted front actions) _ h6 in
      let same : kept ≡ a.actions = ground arith in
      kept_actions items actions a kept (list_in_few _ max_actions_per_assistant items listed)
        (each-length (action front) items actions read) checked same
