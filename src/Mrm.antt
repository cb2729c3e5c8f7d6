-- ===== src/Mrm.antt =====
-- Most-recent-message buffers (core/src/kmrm.c).
pub mod Words
pub mod Defs
pub mod Ops
pub mod Life
pub mod Leases
pub mod Counts
pub mod Recent
pub mod Readers
mod Tests
