-- ===== src/Mem.antt =====
-- core/src/kmem.c: the allocator of fixed-size blocks.
mod Defs
pub mod Chain
pub mod Laws
pub mod Init
mod Tests
unfoldable pub use Defs.*
