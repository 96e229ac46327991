-- ===== src/Turn/Service/Waits.antt =====
-- The loop that drives a run: runtime/src/turn/service.rs, `drive_until_settled`. Every drive is a
-- step of the process on the worker's ledger, so the steps before the process stops bound the drives.
use shimpz_brain.Python.{Python}
use shimpz_brain.Turn.World.{World}
use shimpz_brain.Turn.Service.Worker.{Worker, Service}
