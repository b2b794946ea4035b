-- ===== src/Locker/Unlocking.antt =====
-- The lock runtime of crates/session-lock/src/runtime.rs with the presentation of
-- src/locker/mod.rs: from the worker's success to the unlock request.
use genkan.Prelude.{ℕ, true, false, Option, List, Text, ◌≡◌, ◌≢◌, refl, ◌∙◌, arith, inl, inr}
use genkan.SessionLock.Lifecycle.{Identity, locked}
use genkan.SessionLock.Runtime.{LockRuntime}
use genkan.SessionLock.System.{Call, initial, step, run}
use genkan.SessionLock.Safety.Invariant.{unlocks}
use genkan.SessionLock.Safety.Release.{IsRound, unlock_needs_authorization}
use genkan.SessionLock.Safety.Kept.{IsKept, kept-run}
use genkan.Locker.Services.{Services}
use genkan.Locker.Presenter.{Locker, new, rebuild_overlay, rebuild_frame}
use genkan.Locker.Dialogue.{receive_latest, take_authorization, locker_presentation}
use genkan.Locker.Calls.{latest, deferred, confirm, authorize, typed, serve}
use genkan.Locker.Pairing.{IsPaired}
use genkan.Locker.Histories.{IsPaired-serve, IsPaired-new}
use genkan.Locker.Grants.{
  HasSucceeded, serve-authorized, receive_deferred-authorized, lock_confirmed-authorized,
  input-authorized,
}

module _ (S : Services) where
  -- Between two calls of the runtime no authorization is left over.
  abbrev pub IsIdle : Locker S → Type 0
  IsIdle p = IsPaired S p × (p.authorized ≡ false)

  IsKept-IsIdle : IsKept (locker_presentation S) IsIdle
  unfolding serve take_authorization
  IsKept-IsIdle = record {
    deferred = λ p h. (IsPaired-serve S deferred p h.0, receive_deferred-authorized S p ∙ h.1);
    confirmed = λ p h. (IsPaired-serve S confirm p h.0, lock_confirmed-authorized S p ∙ h.1);
    typed = λ p i h. (IsPaired-serve S (typed i) p h.0, input-authorized S p i ∙ h.1);
    taken = λ p h.
        (IsPaired-serve S authorize (receive_latest S p).1 (IsPaired-serve S latest p h.0), refl);
  }

  IsIdle-new : (client : S.Client) (wallpaper : S.Wallpaper) → IsIdle (new S client wallpaper)
  unfolding new rebuild_overlay rebuild_frame
  IsIdle-new client wallpaper = (IsPaired-new S client wallpaper, ground arith)

  -- The runtime of the lock in a history of calls from its start with a new presentation on.
  abbrev pub locked_session :
      Identity
      → S.Client
      → S.Wallpaper
      → Option Text
      → List ℕ
      → List Call
      → LockRuntime (locker_presentation S)
  locked_session identity client wallpaper output ready cs =
      run (locker_presentation S)
        (initial (locker_presentation S) identity (new S client wallpaper) output ready) cs

  pub IsIdle-locked_session :
      (identity : Identity) (client : S.Client) (wallpaper : S.Wallpaper) (output : Option Text)
      (ready : List ℕ) (cs : List Call)
      → IsIdle (locked_session identity client wallpaper output ready cs).presentation
  unfolding initial
  IsIdle-locked_session identity client wallpaper output ready cs =
      kept-run (locker_presentation S) IsIdle IsKept-IsIdle cs
        (initial (locker_presentation S) identity (new S client wallpaper) output ready)
        (IsIdle-new client wallpaper)

  grant_needs_success :
      (p : Locker S) → IsIdle p → (receive_latest S p).1.authorized ≡ true → HasSucceeded S p
  unfolding serve
  grant_needs_success p h g = elim (serve-authorized S latest p h.0 g) [
    | inl e ↦ ground arith
    | inr e ↦ e.1
  ]

  -- In every history of the lock, a call sends the unlock request only if it is a round of the
  -- loop, the compositor has confirmed the lock, the presentation knows of that, and a success is
  -- among the next 32 events of the worker that serves the attempt in progress.
  pub unlock_needs_success :
      (identity : Identity) (client : S.Client) (wallpaper : S.Wallpaper) (output : Option Text)
      (ready : List ℕ) (cs : List Call) (c : Call)
      → unlocks
          (step
            (locker_presentation S)
            (locked_session identity client wallpaper output ready cs)
            c).effects
        ≢ unlocks (locked_session identity client wallpaper output ready cs).effects
      → IsRound c
        × ((locked_session identity client wallpaper output ready cs).state.lifecycle ≡ locked)
        × HasSucceeded S (locked_session identity client wallpaper output ready cs).presentation
  unfolding take_authorization
  unlock_needs_success identity client wallpaper output ready cs c n =
      let r = locked_session identity client wallpaper output ready cs in
      let u = unlock_needs_authorization (locker_presentation S) r c n in
      (
        u.0,
        u.1,
        grant_needs_success r.presentation
            (IsIdle-locked_session identity client wallpaper output ready cs) u.2,
      )
