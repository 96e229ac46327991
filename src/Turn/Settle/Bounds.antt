-- ===== src/Turn/Settle/Bounds.antt =====
-- The reply that a turn settles on (`settle` of runtime/src/turn/step.rs).
use shimpz_brain.Base.{String, false, false}
use shimpz_brain.Budget
use shimpz_brain.Turn.State.{Turn}
