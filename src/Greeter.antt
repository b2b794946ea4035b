-- ===== src/Greeter.antt =====
-- src/app: the greeter as a state machine over messages.
pub mod State
pub mod Focus
pub mod Flow
pub mod Operations
pub mod Guards
pub mod Handlers
pub mod Update
