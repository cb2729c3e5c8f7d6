-- ===== src/DynObj.antt =====
-- Dynamic objects (core/src/kdynobjs.c): handles, their registry, creation and destruction.
pub mod Defs
pub mod Family
pub mod Kinds
pub mod Laws
pub mod Stale
pub mod Sound
pub mod Blocks
pub mod Destroy
mod Tests
