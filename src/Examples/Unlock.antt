-- ===== src/Examples/Unlock.antt =====
-- A lock of src/locker that is confirmed and whose worker has reported success.
use genkan.Prelude.{
  true, false, ◌&&◌, ◌||◌, none, some, List, [], ◌∷◌, ◌≡◌, ◌≢◌, refl, ◌∙◌, ap, any, arith,
}
use genkan.SessionLock.Lifecycle.{Identity, locked, requesting, update}
use genkan.SessionLock.Lifecycle as lifecycle
use genkan.SessionLock.Runtime.{
  LockRuntime, apply, fail, write_all_ready, redraw_all_surfaces, record_full_frame,
}
use genkan.SessionLock.Handlers.{locked as locked_callback, lock_confirmation_action}
use genkan.SessionLock.System.{Call, locks, rounds, initial, step}
use genkan.SessionLock.Safety.Invariant.{unlocks, run-IsSafe}
use genkan.SessionLock.Safety.Release.{IsRound, grants, authorized_unlocks}
use genkan.Conversation.{new as new_conversation}
use genkan.Locker.Services.{Event, success}
use genkan.Locker.Presenter.{
  new, rebuild_overlay, rebuild_frame, fail_authentication, max_auth_events_per_refresh,
}
use genkan.Locker.Dialogue.{lock_confirmed, begin_client, take_authorization, locker_presentation}
use genkan.Locker.Authorization.{is_success, offered, delivered, receive_auth-authorized}
use genkan.Locker.Grants.{HasSucceeded, receive_latest-authorized}
use genkan.Locker.Unlocking.{locked_session, IsIdle-locked_session, unlock_needs_success}
use genkan.Examples.Locker.{services}
use genkan.Examples.Lock.{alice, working, idle_device}

abbrev client : List Event
client = success ∷ []

abbrev confirmed_lock : LockRuntime (locker_presentation services)
confirmed_lock = locked_session services alice client 0 none [] (locks working ∷ [])

abbrev next_round : Call
next_round = rounds working idle_device 0 []

confirmed_presentation :
    confirmed_lock.presentation ≡ lock_confirmed services (new services client 0)
unfolding initial step locked_callback lock_confirmation_action update apply fail write_all_ready
    redraw_all_surfaces record_full_frame lifecycle.new
confirmed_presentation = refl

lock_is_confirmed : confirmed_lock.state.lifecycle ≡ locked
unfolding initial step locked_callback lock_confirmation_action update apply fail write_all_ready
    redraw_all_surfaces record_full_frame lifecycle.new
lock_is_confirmed = refl

lock_goes_on : confirmed_lock.terminate ≡ false
unfolding initial step locked_callback lock_confirmation_action update apply fail write_all_ready
    redraw_all_surfaces record_full_frame lifecycle.new
lock_goes_on = refl

worker_is_ready :
    ((lock_confirmed services (new services client 0)).confirmed ≡ true)
    × ((lock_confirmed services (new services client 0)).auth ≡ some (1, client))
unfolding lock_confirmed begin_client new new_conversation rebuild_overlay rebuild_frame
    fail_authentication
worker_is_ready = (ground arith, ground arith)

offered_success :
    any is_success (offered services max_auth_events_per_refresh (some (1, client))) ≡ true
unfolding offered delivered
offered_success = refl

success_is_near :
    (confirmed_lock.presentation.confirmed
        && any is_success
            (offered services max_auth_events_per_refresh confirmed_lock.presentation.auth))
      || confirmed_lock.presentation.authorized
    ≡ true
success_is_near =
    rw (confirmed_presentation, worker_is_ready.0, worker_is_ready.1, offered_success) refl

lock_grants : grants (locker_presentation services) confirmed_lock ≡ true
unfolding take_authorization
lock_grants =
    receive_latest-authorized services confirmed_lock.presentation
    ∙ receive_auth-authorized services confirmed_lock.presentation
        (IsIdle-locked_session services alice client 0 none [] (locks working ∷ [])).0
    ∙ success_is_near

next_round-unlocks :
    unlocks (step (locker_presentation services) confirmed_lock next_round).effects
    ≢ unlocks confirmed_lock.effects
unfolding step
next_round-unlocks e =
    let sent =
      authorized_unlocks (locker_presentation services) working idle_device 0 [] confirmed_lock
        (run-IsSafe (locker_presentation services) alice (new services client 0) none []
          (locks working ∷ []))
        lock_goes_on lock_is_confirmed lock_grants in
    omega (arith, ap unlocks sent.0, e)

unlock_needs_success_example :
    IsRound next_round
    × (confirmed_lock.state.lifecycle ≡ locked)
    × HasSucceeded services confirmed_lock.presentation
unlock_needs_success_example =
    unlock_needs_success services alice client 0 none [] (locks working ∷ []) next_round
      next_round-unlocks
