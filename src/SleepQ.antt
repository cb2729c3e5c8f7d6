-- ===== src/SleepQ.antt =====
-- Sleep queues (core/src/ksleepq.c).
pub mod Defs
pub mod Loop
pub mod Laws
mod Tests
