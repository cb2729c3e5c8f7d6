-- ===== src/Mesgq.antt =====
-- core/src/kmesgq.c: message queues.
pub mod Defs
pub mod Ops
pub mod Laws
pub mod Sound
pub mod Keep
pub mod Drain
pub mod Broadcast
pub mod Reach
pub mod Deliver
pub mod Stays
pub mod Buffer
pub mod Fifo
mod Tests
