-- ===== src/Tools.antt =====
-- runtime/src/tools: the chat agent's own tools and the guards that review every model response.
pub mod Refusal
pub mod Browser
pub mod Clarification
pub mod Memory
pub mod Action
pub mod Routine
