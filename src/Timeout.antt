-- ===== src/Timeout.antt =====
-- Timeouts of tasks (core/src/ktimer.c): arming and disarming the node of a task, readying the
-- tasks whose time is over, the sleeping calls and the tick handler of core/src/ksch.c.
pub mod Node
pub mod Expire
pub mod Sleep
pub mod Frame
pub mod Tick
mod Tests
