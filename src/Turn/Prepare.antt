-- ===== src/Turn/Prepare.antt =====
-- runtime/src/turn/service/prepare.rs: what a start or a resume prepares before its run is driven.
pub mod Inputs
pub mod Surface
pub mod Window
pub mod Start
pub mod Resume
pub mod Offers
pub mod Fresh
