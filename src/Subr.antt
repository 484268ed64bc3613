-- ===== src/Subr.antt =====
-- lib/subr.js: the identifier allocator, and the summary of a socket's addresses.
pub mod IdAllocator
pub mod SocketAddrs
