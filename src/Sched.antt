-- ===== src/Sched.antt =====
-- The scheduler of core/src/ksch.c: task queues and the ready bitmap, priorities with inheritance,
-- the choice of the next task, the scheduler lock and the construction phase.
pub mod Queue
pub mod Resched
pub mod Prio
pub mod Switch
pub mod Bitmap
pub mod Dispatch
pub mod Order
pub mod Inherit
pub mod Linked
pub mod Apply
pub mod Chain
pub mod Same
pub mod Frame
pub mod Wake
mod Tests
