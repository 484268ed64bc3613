-- ===== src/Demo.antt =====
-- lib/demo_server.js: the RPC methods of the demo server.
pub mod Errors
pub mod Handlers
pub mod Replying
pub mod Limits
