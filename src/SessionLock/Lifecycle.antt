-- ===== src/SessionLock/Lifecycle.antt =====
-- crates/session-lock/src/lib.rs: the lifecycle of the lock. The events that exist under
-- `cfg(test)` only are left out.
use genkan.Prelude.{ℕ, Bool, true, false, Text}

pub record Identity : Type 0 where
  pub uid : ℕ
  pub username : Text
  pub display_name : Text

pub data Lifecycle : Type 0 where
  requesting locked denied aborted unlocking : Lifecycle

pub data Event : Type 0 where
  lock_confirmed lock_finished runtime_failed presentation_failed : Event

pub data Action : Type 0 where
  none report_ready abort unlock_and_synchronize : Action

pub record State : Type 0 where
  pub identity : Identity
  pub lifecycle : Lifecycle
  pub presentation_failed : Bool

unfoldable pub new : Identity → State
new identity = record { identity = identity; lifecycle = requesting; presentation_failed = false }

-- The `match` of `update`, on the event and the lifecycle.
dispatch : Event → Lifecycle → State → State × Action
dispatch lock_confirmed requesting s = (record s { lifecycle = locked }, report_ready)
dispatch lock_finished requesting s = (record s { lifecycle = denied }, abort)
dispatch lock_finished _ s = (record s { lifecycle = aborted }, abort)
dispatch runtime_failed _ s = (record s { lifecycle = aborted }, abort)
dispatch presentation_failed _ s = (record s { presentation_failed = true }, none)
dispatch lock_confirmed _ s = (s, none)

unfoldable pub update : State → Event → State × Action
unfolding dispatch
update s e = dispatch e s.lifecycle s

abbrev is_locked : Lifecycle → Bool
is_locked locked = true
is_locked _ = false

-- The match stands in a helper on the lifecycle.
authorize : Lifecycle → State → State × Action
authorize locked s = (record s { lifecycle = unlocking }, unlock_and_synchronize)
authorize _ s = (s, none)

unfoldable pub authorize_unlock : State → State × Action
unfolding authorize
authorize_unlock s = authorize s.lifecycle s
