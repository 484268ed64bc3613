-- ===== src/Client/Delivery.antt =====
-- What the caller of lib/fast_client.js sees of the server's messages: which values a request
-- emits, and in which order.
pub mod Reference
pub mod Ending
pub mod Late
