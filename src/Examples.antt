-- ===== src/Examples.antt =====
-- The theorems at concrete inputs.
mod Outputs
mod Lock
mod Conversation
mod Locker
mod Unlock
mod Protocol
mod Greeter
mod Accounts
mod Container
