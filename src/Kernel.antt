-- ===== src/Kernel.antt =====
-- canary-agent-kernel: the facts of a conversation, and the views derived from them.
pub mod Value
pub mod Clock
pub mod Events
pub mod Model
pub mod Projection
