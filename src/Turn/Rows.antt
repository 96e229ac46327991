-- ===== src/Turn/Rows.antt =====
-- The rows of runtime/src/turn/threads.rs: what `load`, `save`, `commit` and `delivery` read and
-- write of a thread and of its last delivery.
use shimpz_brain.Base.{String, Option, none, some, List, [], map, collect, Result, ok, err, ◌>>=◌}
use shimpz_brain.Json.Types.{Value}
use shimpz_brain.Json.{array, text, as_str, as_array}
use shimpz_brain.Conversation.{Message, to_value, from_value}
use shimpz_brain.Errors.{BrainError, state}
use shimpz_brain.Python.{Python}
use shimpz_brain.Turn.World.{Row, DeliveryRow}

pub record Thread : Type 0 where
  pub scope : String
  pub history : List Message
  pub open_run : Option String
  pub committed_run : Option String

pub record Delivery : Type 0 where
  pub answered : List String
  pub turn : Value

-- `ok_or(BrainError::State)`.
unfoldable pub or_state : {A : Type 0} → Option A → Result A BrainError
or_state none = err state
or_state (some a) = ok a

-- `Thread { scope, ..Thread::default() }`.
abbrev pub new_thread : String → Thread
new_thread scope = record { scope = scope; history = []; open_run = none; committed_run = none }

module _ (py : Python) where
  -- The parameters of the statement that stores a thread, and the thread of a row.
  unfoldable pub thread_row : Thread → Row
  thread_row thread = record {
    scope = thread.scope;
    history = py.compact (to_value thread.history);
    open_run = thread.open_run;
    committed_run = thread.committed_run;
  }

  thread_of : Row → Option Thread
  thread_of row = do
    kept ← py.parse row.history
    history ← from_value kept
    some (record {
      scope = row.scope;
      history = history;
      open_run = row.open_run;
      committed_run = row.committed_run;
    })

  unfoldable pub row_thread : Row → Result Thread BrainError
  unfolding thread_of
  row_thread row = or_state (thread_of row)

  unfoldable pub delivery_row : Delivery → DeliveryRow
  delivery_row delivery = record {
    answered = py.compact (array (map text delivery.answered));
    turn = py.compact delivery.turn;
  }

  delivery_of : DeliveryRow → Option Delivery
  delivery_of row = do
    list ← py.parse row.answered
    ids ← as_array list
    answered ← collect as_str ids
    turn ← py.parse row.turn
    some (record { answered = answered; turn = turn })

  unfoldable pub row_delivery : DeliveryRow → Result Delivery BrainError
  unfolding delivery_of
  row_delivery row = or_state (delivery_of row)
