-- ===== src/SessionLock/Safety.antt =====
-- The security of the lock of crates/session-lock/src/runtime.rs: when it is released, and when the
-- process says that the session is locked.
mod Untouched
mod Advance
mod Quiet
pub mod Invariant
pub mod Release
pub mod Kept
pub mod Readiness
