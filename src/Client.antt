-- ===== src/Client.antt =====
-- lib/fast_client.js and lib/fast_client_request.js: the RPC client.
pub mod Request
pub mod State
pub mod Completion
pub mod Messages
pub mod Api
pub mod Invariant
pub mod Delivery
pub mod Streams
pub mod Identifiers
pub mod Kang
pub mod Sending
pub mod Buffer
