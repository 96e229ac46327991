-- ===== src/Turn/Prepare/Fresh.antt =====
-- The results that a resume records: runtime/src/turn/service.rs, `fresh_results`, followed by
-- runtime/src/turn/service/prepare.rs, `resolutions`.
use mathlib.Core.List.{Memᴰ}
use shimpz_brain.Base.{
  ℕ, ◌≡◌, refl, ok, arith, String, some, List, [], ◌∷◌, true, find, filter, All, inl, inr,
  Bool-cases, Option-cases,
}
use shimpz_brain.Base.Results.{>>=-eq-ok}
use shimpz_brain.Json.Types.{Value}
use shimpz_brain.Python.{Python}
use shimpz_brain.Turn.Run.{TeamRequest, request_from_json}
use shimpz_brain.Turn.Prepare.Resume.{
  PendingRequest, team_requests, answers, resolutions, waiting, fresh_results,
}

module _ (py : Python) where
  -- Each step answers, with its result, a pending request of that result's interrupt.
  abbrev pub Resolves : List PendingRequest → List (ℕ × Value) → List (String × Value) → Type 0
  Resolves ps [] [] = Unit
  Resolves ps ((step, v) ∷ steps) ((id, result) ∷ results) =
      ((r : PendingRequest) × Memᴰ r ps × (answers py id r ≡ true) × (step ≡ r.step))
      × (v ≡ result)
      × Resolves ps steps results
  Resolves ps _ _ = ⊥

  decoded_parts :
      (p : PendingRequest) (ps : List PendingRequest) (pending : List TeamRequest)
      → team_requests py (p ∷ ps) ≡ ok pending
      → (q : TeamRequest) × (rest : List TeamRequest) × (request_from_json py p.name p.request
          ≡ some q)
        × (team_requests py ps ≡ ok rest)
        × (pending ≡ q ∷ rest)
  unfolding team_requests
  decoded_parts p ps pending h = elim (Option-cases (request_from_json py p.name p.request)) [
    | inl e ↦ absurd (ground arith)
    | inr (q, e) ↦
        let (rest, same, last) =
          >>=-eq-ok (team_requests py ps) (λ requests. ok (q ∷ requests)) {last = pending}
            (ground arith) in
        (q, rest, e, same, ground arith)
  ]

  find_asks :
      (id : String) (ps : List PendingRequest) (pending : List TeamRequest)
      → team_requests py ps ≡ ok pending
      → waiting pending id ≡ true
      → (r : PendingRequest) × (find (answers py id) ps ≡ some r)
        × Memᴰ r ps
        × (answers py id r ≡ true)
  unfolding team_requests waiting
  find_asks id [] pending decodes waits = absurd (ground arith)
  find_asks id (p ∷ ps) pending decodes waits = elim (Bool-cases (answers py id p)) [
    | inl e ↦ (p, rw e, Memᴰ.head refl, e)
    | inr e ↦
        let (q, rest, known, decoded, same) = decoded_parts p ps pending decodes in
        let (r, found, member, asks) = find_asks id ps rest decoded (ground arith) in
        (r, rw e found, Memᴰ.tail member, asks)
  ]

  resolved :
      (ps : List PendingRequest) (pending : List TeamRequest) (results : List (String × Value))
      → team_requests py ps ≡ ok pending
      → All (λ r. waiting pending r.0 ≡ true) results
      → (steps : List (ℕ × Value)) × (resolutions py ps results ≡ ok steps)
        × Resolves ps steps results
  unfolding resolutions
  resolved ps pending [] decodes waits = ([], refl, tt)
  resolved ps pending ((id, result) ∷ results) decodes (first, rest) =
      let (r, found, member, asks) = find_asks id ps pending decodes first in
      let (steps, same, all) = resolved ps pending results decodes rest in
      ((r.step, result) ∷ steps, ground (arith, found, same), ((r, member, asks, refl), refl, all))

  filter_waits :
      (pending : List TeamRequest) (results : List (String × Value))
      → All (λ r. waiting pending r.0 ≡ true) (filter (λ r. waiting pending r.0) results)
  filter_waits pending [] = tt
  filter_waits pending (r ∷ results) = elim (Bool-cases (waiting pending r.0)) [
    | inl e ↦ rw e (e, filter_waits pending results)
    | inr e ↦ rw e (filter_waits pending results)
  ]

  -- The results that a resume finds fresh are recorded: each resolves, with its own value, a step
  -- that waits on its interrupt, and none is refused. They are the request's results of interrupts
  -- that the run still waits on, in their order, so what an earlier resume recorded is not recorded
  -- again.
  pub fresh_results_resolve :
      (ps : List PendingRequest) (pending : List TeamRequest)
      (results fresh : List (String × Value)) (asked : List String)
      → team_requests py ps ≡ ok pending
      → fresh_results results pending asked ≡ ok fresh
      → (fresh ≡ filter (λ r. waiting pending r.0) results)
        × ((steps : List (ℕ × Value)) × (resolutions py ps fresh ≡ ok steps)
            × Resolves ps steps fresh)
  unfolding fresh_results
  fresh_results_resolve ps pending results fresh asked decodes h =
      let same : fresh ≡ filter (λ r. waiting pending r.0) results = ground arith in
      (same, resolved ps pending fresh decodes (rw same (filter_waits pending results)))
