-- ===== src/Locker.antt =====
-- src/locker: what the session locker shows and how it talks to its PAM worker.
pub mod Services
pub mod Presenter
pub mod Dialogue
pub mod Pairing
pub mod Calls
pub mod Histories
pub mod Authorization
pub mod Grants
pub mod Replies
pub mod Unlocking
