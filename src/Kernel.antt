-- ===== src/Kernel.antt =====
-- The kernel's shared state: task control blocks, ready queues, scheduler globals and the objects
-- that tasks wait on. The modules of the operations take it and return it.
mod State
mod Samples
unfoldable pub use State.*
pub use Samples.*
