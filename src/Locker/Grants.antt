-- ===== src/Locker/Grants.antt =====
-- Which calls on the presentation of src/locker/mod.rs can authorize the unlock.
use genkan.Prelude.{true, ◌≡◌, refl, ◌∙◌, arith, ◌⊎◌, any}
use genkan.SessionLock.Frames.{Input}
use genkan.Locker.Services.{Services}
use genkan.Locker.Presenter.{
  max_auth_events_per_refresh, Locker, rebuild_frame, rebuild_overlay, fail_authentication,
  cancel_client, replace_worker, retry, cancel_attempt, receive_auth,
}
use genkan.Locker.Dialogue.{
  begin_client, deliver, submit_response, turn_page, take_input, input, receive_latest,
  receive_deferred, lock_confirmed, take_authorization,
}
use genkan.Locker.Calls.{Call, latest, deferred, confirm, authorize, typed, serve}
use genkan.Locker.Pairing.{IsPaired}
use genkan.Locker.Authorization.{is_success, offered, receive_auth-authorized}

module _ (S : Services) where
  rebuild_frame-authorized : (p : Locker S) → (rebuild_frame S p).authorized ≡ p.authorized
  unfolding rebuild_frame
  rebuild_frame-authorized p = ground arith

  pub rebuild_overlay-authorized : (p : Locker S) → (rebuild_overlay S p).authorized ≡ p.authorized
  unfolding rebuild_overlay
  rebuild_overlay-authorized p = rebuild_frame-authorized _

  retry-authorized : (p : Locker S) → (retry S p).1.authorized ≡ p.authorized
  unfolding retry replace_worker cancel_client fail_authentication
  retry-authorized p = ground arith

  cancel_attempt-authorized : (p : Locker S) → (cancel_attempt S p).1.authorized ≡ p.authorized
  unfolding cancel_attempt replace_worker cancel_client fail_authentication
  cancel_attempt-authorized p = ground arith

  submit_response-authorized : (p : Locker S) → (submit_response S p).1.authorized ≡ p.authorized
  unfolding submit_response deliver fail_authentication
  submit_response-authorized p = ground arith

  turn_page-authorized : (p : Locker S) → (turn_page S p).1.authorized ≡ p.authorized
  unfolding turn_page
  turn_page-authorized p = ground arith

  take_input-authorized :
      (i : Input) (p : Locker S) → (take_input S i p).1.authorized ≡ p.authorized
  unfolding take_input
  take_input-authorized (Input.text v) p = refl
  take_input-authorized Input.backspace p = refl
  take_input-authorized Input.submit p =
      ground (arith, retry-authorized p, submit_response-authorized p)
  take_input-authorized Input.cancel p = cancel_attempt-authorized p
  take_input-authorized Input.next_page p = turn_page-authorized p

  pub input-authorized : (p : Locker S) (i : Input) → (input S p i).1.authorized ≡ p.authorized
  unfolding input
  input-authorized p i =
      ground (arith, take_input-authorized i p, rebuild_overlay-authorized (take_input S i p).1)

  pub receive_deferred-authorized :
      (p : Locker S) → (receive_deferred S p).1.authorized ≡ p.authorized
  unfolding receive_deferred rebuild_frame
  receive_deferred-authorized p = ground arith

  pub lock_confirmed-authorized : (p : Locker S) → (lock_confirmed S p).authorized ≡ p.authorized
  unfolding lock_confirmed begin_client fail_authentication rebuild_overlay rebuild_frame
  lock_confirmed-authorized p = ground arith

  pub receive_latest-authorized :
      (p : Locker S) → (receive_latest S p).1.authorized ≡ (receive_auth S p).1.authorized
  unfolding receive_latest
  receive_latest-authorized p = ground (arith, rebuild_overlay-authorized (receive_auth S p).1)

  -- What a refresh needs to authorize: a confirmed lock and a success among the events of the
  -- client.
  abbrev pub HasSucceeded : Locker S → Type 0
  HasSucceeded p =
      (p.confirmed ≡ true) × (any is_success (offered S max_auth_events_per_refresh p.auth) ≡ true)

  -- While the client serves the attempt that the conversation is in, a call of the trait leaves the
  -- presentation authorized only if it was so before, or the call is the refresh, the lock is
  -- confirmed and a success is among the next 32 events of the client.
  pub serve-authorized :
      (c : Call) (p : Locker S)
      → IsPaired S p
      → (serve S c p).authorized ≡ true
      → (p.authorized ≡ true) ⊎ ((c ≡ latest) × HasSucceeded p)
  unfolding serve take_authorization
  serve-authorized latest p h a =
      let e = receive_latest-authorized p ∙ receive_auth-authorized S p h in ground arith
  serve-authorized deferred p h a = ground (arith, receive_deferred-authorized p)
  serve-authorized confirm p h a = ground (arith, lock_confirmed-authorized p)
  serve-authorized (typed i) p h a = ground (arith, input-authorized p i)
  serve-authorized authorize p h a = ground arith
