-- ===== src/Runtime.antt =====
-- canary-agent-runtime: the agent loop and the components that it works with.
pub mod Error
pub mod Exec
pub mod Stream
pub mod Functions
pub mod Context
pub mod Agent
