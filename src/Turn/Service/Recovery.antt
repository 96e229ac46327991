-- ===== src/Turn/Service/Recovery.antt =====
-- A run that ended, and what the stores hold of it while a resume commits it, stops and is repeated
-- (runtime/src/turn/service.rs: `resume`, `resume_open`, `ended` and `reconcile`).
use shimpz_brain.Base.{
  ℕ, suc, ◌+◌, ◌≤◌, ◌<◌, ◌≡◌, refl, sym, subst, ap, ◌∙◌, Result, ok, err, ◌⊎◌, inl, inr, arith,
  String, Bool, true, false, Option, none, some, List, [], ◌∷◌, map,
}
use shimpz_brain.Base as Base
use shimpz_brain.Base.Table.{lookup}
use shimpz_brain.Json.Types.{Value, get}
use shimpz_brain.Json.{array, text}
use shimpz_brain.Conversation.{Message, from_value, to_value}
use shimpz_brain.Turn.Run.{Journal, unwrap_text}
use shimpz_brain.Turn.Prepare.Inputs.{Workshop, ResumeRequest}
use shimpz_brain.Turn.Prepare.Resume.{Event, asked, last_round, applied}
use shimpz_brain.Turn.Rows.{Thread, Delivery, thread_row, row_thread, delivery_row}
use shimpz_brain.Turn.World.{Row, DeliveryRow}
use shimpz_brain.Turn.Service.Worker.{wrong_state, done, Worker}
use shimpz_brain.Turn.Service.Runs.{failed_from}
use shimpz_brain.Turn.Service.Requests.{answered_of, names_run, same_texts}
use shimpz_brain.Turn.Service.Rules.{Stores}

-- A run that ended well, the thread that has it open, and the request that answered its last round.
-- The texts that the store writes are read back as they were written.
pub record Finished (shop : Workshop) : Type 0 where
  pub thread_id : String
  pub run_id : String
  pub row : Row
  pub earlier : Option DeliveryRow  -- the turn that the thread kept before, as stored
  pub thread : Thread
  pub events : List Event
  pub journal : Journal
  pub completed : Value
  pub messages : List Message
  pub turn : Value
  pub request : ResumeRequest
  pub same_thread : request.turn.context.thread_id ≡ thread_id
  pub reads : row_thread shop.py row ≡ ok thread
  pub opened : thread.open_run ≡ some run_id
  pub uncommitted : names_run thread.committed_run run_id ≡ false
  pub asked_for : applied (answered_of request) [] (asked shop.py events) ≡ true
  pub last : same_texts (answered_of request) (last_round shop.py events) ≡ true
  pub outcome : unwrap_text shop.py journal "outcome" ≡ some completed
  pub success : failed_from completed ≡ none
  pub history : Base.◌>>=◌ (get completed "messages") from_value ≡ some messages
  pub reply : get completed "turn" ≡ some turn
  pub history_text : shop.py.parse (shop.py.compact (to_value messages)) ≡ some (to_value messages)
  pub answered_text :
      shop.py.parse (shop.py.compact (array (map text (answered_of request))))
      ≡ some (array (map text (answered_of request)))
  pub turn_text : shop.py.parse (shop.py.compact turn) ≡ some turn

module _ (shop : Workshop) (worker : Worker) (f : Finished shop) where
  abbrev pub committed_thread : Thread
  committed_thread = record f.thread { history = f.messages; committed_run = some f.run_id }

  abbrev pub cleared_thread : Thread
  cleared_thread = record committed_thread { open_run = none }

  abbrev pub kept_turn : Delivery
  kept_turn = record { answered = answered_of f.request; turn = f.turn }

  -- The ledger holds the ended run; or it is gone.
  abbrev pub Held : worker.Ledger → Type 0
  Held l =
      (worker.history f.run_id l ≡ ok f.events)
      × (worker.pending f.run_id l ≡ ok [])
      × (worker.result f.run_id l ≡ ok (some (done f.journal)))

  abbrev pub Fine : worker.Ledger → Type 0
  Fine l = Held l ⊎ (worker.history f.run_id l ≡ err wrong_state)

  -- The exchange is kept once, with its turn, and the thread has no run open.
  abbrev pub Cleared : Stores worker.Ledger → Type 0
  Cleared s =
      (lookup s.rows f.thread_id ≡ some (thread_row shop.py cleared_thread))
      × (lookup s.deliveries f.thread_id ≡ some (delivery_row shop.py kept_turn))

  -- Nothing of the exchange is in the stores: the thread and its kept turn are as they were.
  abbrev pub Ended : Stores worker.Ledger → Type 0
  Ended s =
      (lookup s.rows f.thread_id ≡ some f.row)
      × (lookup s.deliveries f.thread_id ≡ f.earlier)
      × Held s.ledger

  -- What a stop may leave: nothing of the exchange, or the exchange with its turn.
  pub data Phase (s : Stores worker.Ledger) : Type 0 where
    ended : Ended s → Phase s
    committed :
        lookup s.rows f.thread_id ≡ some (thread_row shop.py committed_thread)
        → lookup s.deliveries f.thread_id ≡ some (delivery_row shop.py kept_turn)
        → Fine s.ledger
        → Phase s
    cleared : Cleared s → Phase s
