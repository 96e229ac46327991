-- ===== src/Turn/Service.antt =====
-- runtime/src/turn/service.rs: chat turns over Holdpoint's worker and the thread store.
pub mod Worker
pub mod Runs
pub mod Requests
pub mod Starts
pub mod Rules
pub mod Steps
pub mod Waits
pub mod Reads
pub mod Recovery
pub mod Resumes
pub mod Repeats
pub mod Stops
pub mod Sessions
pub mod Lends
pub mod Erasure
