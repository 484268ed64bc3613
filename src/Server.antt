-- ===== src/Server.antt =====
-- lib/fast_server.js: the RPC server.
pub mod State
pub mod Response
pub mod Lifecycle
pub mod Messages
pub mod Api
pub mod Replies
pub mod Effects
pub mod Proper
pub mod Kang
pub mod Contract
pub mod Invariant
