-- ===== src/System.antt =====
-- Client and server together: a reply on its way from the handler of lib/fast_server.js to the
-- caller of lib/fast_client.js.
pub mod Hearing
pub mod Call
pub mod Methods
pub mod Network
pub mod Wire
