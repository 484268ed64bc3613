-- ===== src/Subr/IdAllocator.antt =====
-- `IdAllocator` of lib/subr.js.
mod Defs
pub mod Cycle
pub mod Allocation
pub use Defs.{IdAllocator, advance, count, IsValid}
unfoldable pub use Defs.{create, alloc_loop, alloc}
pub use Cycle.{nth}
