-- ===== src/Handle.antt =====
-- Task handles (core/src/ksch.c).
pub mod Defs
pub mod Laws
mod Tests
