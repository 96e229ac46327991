-- ===== src/Turn.antt =====
-- runtime/src/turn: a chat turn, from its pinned context to its settled reply.
pub mod Context
pub mod Run
pub mod State
pub mod Guards
pub mod Model
pub mod ToolsNode
pub mod Settle
pub mod Drive
pub mod World
pub mod Rows
pub mod Threads
pub mod Prepare
pub mod Service
