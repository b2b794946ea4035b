-- ===== src/SessionLock.antt =====
-- crates/session-lock: the process that owns the compositor's session lock.
pub mod Frames
pub mod Lifecycle
pub mod Redraw
pub mod Geometry
pub mod Retirement
pub mod Runtime
pub mod Handlers
pub mod Render
pub mod Loop
pub mod System
pub mod Safety
