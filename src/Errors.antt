-- ===== src/Errors.antt =====
-- runtime/src/errors.rs: the Brain's closed error kinds, and the verdict of a guard
-- (runtime/src/tools/mod.rs).
use shimpz_brain.Base.{ℕ, String, Option, Result}

pub data BrainError : Type 0 where
  contract : String → BrainError
  provider : BrainError
  state : BrainError
  cancelled : String → BrainError
  capacity : String → BrainError

-- The HTTP status and public detail.
unfoldable pub answer : BrainError → ℕ × String
answer (contract detail) = (400, detail)
answer provider = (502, "Model provider request failed")
answer state = (503, "Brain runtime state operation failed")
answer (cancelled detail) = (409, detail)
answer (capacity detail) = (429, detail)

-- `Ok(None)` lets the calls run, `Ok(Some(correction))` refuses the response, `Err` ends the turn.
abbrev pub Review : Type 0
Review = Result (Option String) BrainError
