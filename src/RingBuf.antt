-- ===== src/RingBuf.antt =====
-- core/src/kringbuf.c: the ring of fixed-size elements behind message queues.
-- A function that updates `*kobj` returns the new ring; one that writes memory returns that too.
mod Defs
pub mod Inv
pub mod Refine
unfoldable pub use Defs.*
