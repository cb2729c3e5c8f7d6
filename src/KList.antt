-- ===== src/KList.antt =====
-- core/src/klist.c: the intrusive doubly linked list behind every queue of the kernel.
mod Defs
pub mod Links
pub mod Refine
mod Tests
unfoldable pub use Defs.*
