-- ===== src/Tests.antt =====
-- Concrete runs of the definitions, and the theorems at concrete inputs.
mod Allocator
mod Wire
mod Fixture
mod Client
mod Server
mod System
mod Network
mod Carried
