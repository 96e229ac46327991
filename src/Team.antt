-- ===== src/Team.antt =====
-- What the Brain takes from the rest of `team_protocol` (protocol/team/http, a mirror of Team's
-- crate), as a parameter of the definitions that use it.
use shimpz_brain.Base.{Bool, String, Option}
use shimpz_brain.Json.Types.{Value}

pub record Team : Type 0 where
  pub canonical_objective : Value → Option String
  pub memory_topic : String → Bool  -- `MEMORY_TOPIC_RE.is_full`
  pub unquoted : String → Option String  -- `QUOTED_RE.sub(.., QUOTED_MARK).ok()`
  pub team_asks : String → Option String → Option Bool  -- `phrase::team_asks`, `none` for its `Err`
  pub render_clarification : Value → String
