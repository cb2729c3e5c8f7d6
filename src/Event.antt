-- ===== src/Event.antt =====
-- Task event flags (core/src/ktaskevents.c).
pub mod Defs
pub mod Laws
mod Tests
