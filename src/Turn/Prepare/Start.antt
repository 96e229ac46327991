-- ===== src/Turn/Prepare/Start.antt =====
-- `prepare::start` of runtime/src/turn/service/prepare.rs, over the thread that the turn starts from.
use Prim.Native.String.{◌++◌ as str_append}
use shimpz_brain.Base.{ℕ, String, Bool, some, List, is_nil, if◌then◌else◌, Result, ok}
use shimpz_brain.Base.Results.{◌>>=◌}
use shimpz_brain.Conversation.{user}
use shimpz_brain.Errors.{BrainError}
use shimpz_brain.Attachments.Projection.{attached_turn_prefix}
use shimpz_brain.Attachments.Charges.{Counted, charge}
use shimpz_brain.Turn.Context.{TurnContext}
use shimpz_brain.Turn.Run.{TurnInput}
use shimpz_brain.Turn.Rows.{Thread}
use shimpz_brain.Turn.Prepare.Inputs.{Workshop, TurnRequest, StartRequest, TurnSession}
use shimpz_brain.Turn.Prepare.Surface.{surface}
use shimpz_brain.Turn.Prepare.Window.{fit, run_id, input}

-- What `prepare::start` leaves to submit.
pub record Prepared : Type 0 where
  pub thread : Thread
  pub run_id : String
  pub input : TurnInput
  pub session : TurnSession

-- What a start draws from outside: the random bytes, in hex, of its turn and of its bridge, the
-- reads of its scope and the provider's counts.
pub record Draws : Type 0 where
  pub turn_random : String
  pub bridge_random : String
  pub stopped_before : Bool
  pub stopped_after : Bool
  pub arrivals : List (ℕ × Counted)

module _ (shop : Workshop) where
  turn_id_of : TurnRequest → String → String
  turn_id_of turn random =
      str_append (if is_nil turn.attachments then "shimpz-turn-" else attached_turn_prefix) random

  unfoldable pub context_of : StartRequest → Draws → TurnContext
  unfolding turn_id_of
  context_of request draws = record request.turn.context {
    turn_message_id = some (turn_id_of request.turn draws.turn_random);
  }

  abbrev charged : TurnContext → ℕ → TurnContext
  charged context tokens = record context {
    attachments = record context.attachments { charge = tokens };
  }

  -- The pure part of `prepare::start`, over the thread that the turn starts from.
  unfoldable pub prepared : StartRequest → Draws → Thread → Result Prepared BrainError
  unfolding turn_id_of
  prepared request draws thread = do
    let context = context_of request draws
    let turn = user (turn_id_of request.turn draws.turn_random) request.message
    tokens ←
        charge shop.rules draws.stopped_before draws.stopped_after draws.arrivals
          request.turn.attachments
    let charged_context = charged context tokens
    offered ← surface shop charged_context
    kept ←
        fit shop draws.bridge_random charged_context thread.history offered.fixed turn
          request.conversation
    ok (record {
      thread = record thread { history = kept.0 };
      run_id = run_id shop context.thread_id (turn_id_of request.turn draws.turn_random);
      input = input charged_context offered kept.0 kept.1 turn;
      session = record { provider = request.turn.provider; attachments = request.turn.attachments };
    })
