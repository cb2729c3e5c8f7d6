-- ===== src/Mutex.antt =====
-- Mutexes with priority inheritance (core/src/kmutex.c).
pub mod Defs
pub mod Owner
pub mod Release
pub mod Laws
pub mod Exclusion
mod Tests
