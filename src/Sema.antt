-- ===== src/Sema.antt =====
-- Counting and binary semaphores (core/src/ksema.c).
pub mod Defs
pub mod Laws
pub mod Post
mod Tests
