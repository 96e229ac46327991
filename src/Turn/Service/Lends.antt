-- ===== src/Turn/Service/Lends.antt =====
-- A request's provider key and attachments leave with it: runtime/src/turn/service.rs, every request
-- of the service, and runtime/src/turn/host.rs, `install` and `remove`.
use shimpz_brain.Base.{
  ℕ, zero, suc, ◌≡◌, ap, ◌∙◌, Result, ok, err, String, eq_refl, Option, none, some, List, [], ◌∷◌,
}
use shimpz_brain.Base.Table.{Table, put, remove}
use shimpz_brain.Json.Types.{Value}
use shimpz_brain.Python.{Python}
use shimpz_brain.Turn.Prepare.Inputs.{Workshop, StartRequest, ResumeRequest, TurnSession}
use shimpz_brain.Turn.Prepare.Resume.{Event}
use shimpz_brain.Turn.Prepare.Start.{Draws}
use shimpz_brain.Turn.Rows.{Thread}
use shimpz_brain.Turn.World.{Act}
use shimpz_brain.Turn.Service.Worker.{
  WorkerError, wrong_state, busy, Outcome, Driven, timed, Worker, Service,
}
use shimpz_brain.Turn.Service.Runs.{
  Settled, pending, run_ended, after_drive, drive_within, drive_until_settled, drive, settle_run,
  run,
}
use shimpz_brain.Turn.Service.Requests.{
  Open, delivered, delete_run_of, delete_open, delete_thread, resolve_all, drive_on, settle_ended,
  go_on, after_result, resume_open, after_history, resume_on, resume_thread, resume,
}
use shimpz_brain.Turn.Service.Starts.{
  has_pending, start_from, thread_for_start, start, pending_of_run, pending_of, pending_action,
}
use shimpz_brain.Turn.Service.Sessions.{
  Leaves, Leaves-bind, leaves_rules, load-Leaves, save-Leaves, delivery-Leaves, delete-Leaves,
  call-Leaves, ask-Leaves, delete_run-Leaves, reconcile-Leaves, pending-Leaves, input-Leaves,
  suspended-Leaves, run_outcome-Leaves,
}

module _ (py : Python) (worker : Worker) where
  after_drive-Leaves :
      {held : Table TurnSession} (r : Result Driven WorkerError)
      (again retry : Act (Service worker) Settled)
      → Leaves held again
      → Leaves held retry
      → Leaves held (after_drive py worker r again retry)
  unfolding after_drive
  after_drive-Leaves (ok timed) again retry k j = k
  after_drive-Leaves (ok _) again retry k j = search leaves_rules
  after_drive-Leaves (err busy) again retry k j = j
  after_drive-Leaves (err _) again retry k j = search leaves_rules

  drive_within-Leaves :
      {held : Table TurnSession} (fuel polls : ℕ) (run_id : String)
      → Leaves held (drive_within py worker fuel polls run_id)
  unfolding drive_within
  drive_within-Leaves zero polls run_id = search leaves_rules
  drive_within-Leaves (suc fuel) zero run_id = Leaves-bind _ _ (search leaves_rules) λ session.
      Leaves-bind _ _ (call-Leaves py worker _)
        λ r. after_drive-Leaves r _ _ (drive_within-Leaves fuel zero run_id) (search leaves_rules)
  drive_within-Leaves (suc fuel) (suc polls) run_id =
      Leaves-bind _ _ (search leaves_rules) λ session.
        Leaves-bind _ _ (call-Leaves py worker _) λ r.
          after_drive-Leaves r _ _ (drive_within-Leaves fuel (suc polls) run_id)
            (drive_within-Leaves fuel polls run_id)

  remove-put :
      (run_id : String) (session : TurnSession) → remove (put [] run_id session) run_id ≡ []
  unfolding remove put
  remove-put run_id session = rw (eq_refl run_id)

  drive-Leaves :
      (run_id : String) (session : TurnSession) → Leaves [] (drive py worker run_id session)
  unfolding drive drive_until_settled
  drive-Leaves run_id session = record {
    at = λ w h.
        ap (λ (t : Table TurnSession). remove t run_id)
          ((drive_within-Leaves _ _ run_id).at
            (record w { sessions = put w.sessions run_id session })
            (ap (λ (t : Table TurnSession). put t run_id session) h))
        ∙ remove-put run_id session;
  }

  settle_run-Leaves :
      (s : Settled) (id : String) (thread : Thread) (run_id : String) (answered : List String)
      → Leaves [] (settle_run py worker s id thread run_id answered)
  unfolding settle_run
  settle_run-Leaves pending id thread run_id answered = suspended-Leaves py worker run_id
  settle_run-Leaves (run_ended outcome) id thread run_id answered =
      run_outcome-Leaves py worker id thread run_id answered outcome

  run-Leaves :
      (id : String) (thread : Thread) (run_id : String) (answered : List String)
      (session : TurnSession)
      → Leaves [] (run py worker id thread run_id answered session)
  unfolding run
  run-Leaves id thread run_id answered session =
      search (leaves_rules, drive-Leaves, settle_run-Leaves)

module _ (shop : Workshop) (worker : Worker) where
  delivered-Leaves :
      (id : String) (answered : List String) → Leaves [] (delivered shop worker id answered)
  unfolding delivered
  delivered-Leaves id answered = search (leaves_rules, delivery-Leaves)

  delete_run_of-Leaves : (o : Option String) → Leaves [] (delete_run_of shop worker o)
  unfolding delete_run_of
  delete_run_of-Leaves none = search leaves_rules
  delete_run_of-Leaves (some run_id) = search (leaves_rules, delete_run-Leaves)

  delete_open-Leaves : (o : Option Thread) → Leaves [] (delete_open shop worker o)
  unfolding delete_open
  delete_open-Leaves none = search leaves_rules
  delete_open-Leaves (some thread) = delete_run_of-Leaves thread.open_run

  delete_thread-Leaves : (id : String) → Leaves [] (delete_thread shop worker id)
  unfolding delete_thread
  delete_thread-Leaves id = search (leaves_rules, load-Leaves, delete_open-Leaves, delete-Leaves)

  resolve_all-Leaves :
      (run_id : String) (rs : List (ℕ × Value)) → Leaves [] (resolve_all shop worker run_id rs)
  unfolding resolve_all
  resolve_all-Leaves run_id [] = search leaves_rules
  resolve_all-Leaves run_id ((step, v) ∷ rs) =
      Leaves-bind _ _ (call-Leaves shop.py worker _)
        λ r. Leaves-bind _ _ (search leaves_rules) λ _. resolve_all-Leaves run_id rs

  drive_on-Leaves :
      (id : String) (thread : Thread) (run_id : String) (o : Open) (answered : List String)
      (request : ResumeRequest)
      → Leaves [] (drive_on shop worker id thread run_id o answered request)
  unfolding drive_on
  drive_on-Leaves id thread run_id o answered request =
      search
        (
          leaves_rules, input-Leaves, ask-Leaves, resolve_all-Leaves, run-Leaves,
          delete_thread-Leaves,
        )
        depth 14

  settle_ended-Leaves :
      (id : String) (thread : Thread) (run_id : String) (o : Open) (answered : List String)
      (outcome : Outcome)
      → Leaves [] (settle_ended shop worker id thread run_id o answered outcome)
  unfolding settle_ended
  settle_ended-Leaves id thread run_id o answered outcome =
      search (leaves_rules, reconcile-Leaves, delivered-Leaves, run_outcome-Leaves) depth 8

  go_on-Leaves :
      (id : String) (thread : Thread) (run_id : String) (o : Open) (answered : List String)
      (request : ResumeRequest)
      → Leaves [] (go_on shop worker id thread run_id o answered request)
  unfolding go_on
  go_on-Leaves id thread run_id o answered request =
      search (leaves_rules, reconcile-Leaves, delivered-Leaves, drive_on-Leaves) depth 8

  after_result-Leaves :
      (r : Option Outcome) (id : String) (thread : Thread) (run_id : String) (o : Open)
      (answered : List String) (request : ResumeRequest)
      → Leaves [] (after_result shop worker r id thread run_id o answered request)
  unfolding after_result
  after_result-Leaves none id thread run_id o answered request =
      go_on-Leaves id thread run_id o answered request
  after_result-Leaves (some outcome) id thread run_id o answered request =
      settle_ended-Leaves id thread run_id o answered outcome

  after_history-Leaves :
      (r : Result (List Event) WorkerError) (id : String) (thread : Thread) (run_id : String)
      (answered : List String) (request : ResumeRequest)
      → Leaves [] (after_history shop worker r id thread run_id answered request)
  unfolding after_history resume_open
  after_history-Leaves (err wrong_state) id thread run_id answered request =
      search (leaves_rules, save-Leaves, delivered-Leaves)
  after_history-Leaves (err _) id thread run_id answered request = search leaves_rules
  after_history-Leaves (ok events) id thread run_id answered request =
      search (leaves_rules, pending-Leaves, ask-Leaves, after_result-Leaves) depth 8

  resume_on-Leaves :
      (o : Option String) (id : String) (thread : Thread) (answered : List String)
      (request : ResumeRequest)
      → Leaves [] (resume_on shop worker o id thread answered request)
  unfolding resume_on
  resume_on-Leaves none id thread answered request = delivered-Leaves id answered
  resume_on-Leaves (some run_id) id thread answered request =
      search (leaves_rules, ask-Leaves, after_history-Leaves)

  resume_thread-Leaves :
      (o : Option Thread) (id : String) (answered : List String) (request : ResumeRequest)
      → Leaves [] (resume_thread shop worker o id answered request)
  unfolding resume_thread
  resume_thread-Leaves none id answered request = search leaves_rules
  resume_thread-Leaves (some thread) id answered request =
      resume_on-Leaves thread.open_run id thread answered request

  resume-Leaves : (request : ResumeRequest) → Leaves [] (resume shop worker request)
  unfolding resume
  resume-Leaves request = search (leaves_rules, load-Leaves, resume_thread-Leaves)

  has_pending-Leaves : (o : Option String) → Leaves [] (has_pending shop worker o)
  unfolding has_pending
  has_pending-Leaves none = search leaves_rules
  has_pending-Leaves (some run_id) = search (leaves_rules, pending-Leaves)

  start_from-Leaves :
      (id scope : String) (o : Option Thread) → Leaves [] (start_from shop worker id scope o)
  unfolding start_from
  start_from-Leaves id scope none = search leaves_rules
  start_from-Leaves id scope (some thread) =
      search (leaves_rules, has_pending-Leaves, delete_thread-Leaves, reconcile-Leaves) depth 8

  start-Leaves :
      (request : StartRequest) (draws : Draws) → Leaves [] (start shop worker request draws)
  unfolding start thread_for_start
  start-Leaves request draws =
      search (leaves_rules, load-Leaves, start_from-Leaves, save-Leaves, call-Leaves, run-Leaves)
        depth 14

  pending_of_run-Leaves :
      (o : Option String) (interrupt : String) → Leaves [] (pending_of_run shop worker o interrupt)
  unfolding pending_of_run
  pending_of_run-Leaves none interrupt = search leaves_rules
  pending_of_run-Leaves (some run_id) interrupt =
      search (leaves_rules, pending-Leaves, input-Leaves) depth 8

  pending_of-Leaves :
      (o : Option Thread) (interrupt : String) → Leaves [] (pending_of shop worker o interrupt)
  unfolding pending_of
  pending_of-Leaves none interrupt = search leaves_rules
  pending_of-Leaves (some thread) interrupt = pending_of_run-Leaves thread.open_run interrupt

  pending_action-Leaves :
      (id interrupt : String) → Leaves [] (pending_action shop worker id interrupt)
  unfolding pending_action
  pending_action-Leaves id interrupt = search (leaves_rules, load-Leaves, pending_of-Leaves)

  -- Where no session was installed before a request, none is after it, whatever the request ends in,
  -- an answer, an error or a stop anywhere: the provider key and the attachments that it lent its
  -- run are gone.
  pub requests_leave_none :
      ((request : StartRequest) (draws : Draws) → Leaves [] (start shop worker request draws))
      × ((request : ResumeRequest) → Leaves [] (resume shop worker request))
      × ((id : String) → Leaves [] (delete_thread shop worker id))
      × ((id interrupt : String) → Leaves [] (pending_action shop worker id interrupt))
  requests_leave_none = (start-Leaves, resume-Leaves, delete_thread-Leaves, pending_action-Leaves)
