-- ===== src/Examples/Lock.antt =====
-- The lock of crates/session-lock with a small presentation: a number that counts the granted
-- authorizations still to be taken.
use genkan.Prelude.{
  ℕ, true, false, none, some, List, [], ◌∷◌, ◌++◌, ◌≡◌, ◌≢◌, refl, arith, ltb, codes, ap,
}
use genkan.SessionLock.Frames.{Presentation, Refresh}
use genkan.SessionLock.Lifecycle.{Identity, requesting, locked}
use genkan.SessionLock.Redraw.{
  RedrawKind, default_redraw, request_geometry, should_render, overlay_progress,
}
use genkan.SessionLock.Redraw.Scheduling.{
  Op, requested, geometry, role, media, done, commits, IsConsistent, run-IsConsistent,
  full_persists, IsClassified, overlay_progress-IsClassified,
}
use genkan.SessionLock.Redraw.Scheduling
use genkan.SessionLock.Runtime.{Outside, LockRuntime, unlocked}
use genkan.SessionLock.Render.{Device}
use genkan.SessionLock.Loop.{round}
use genkan.SessionLock.System.{Call, locks, finishes, rounds, initial, step, run}
use genkan.SessionLock.Safety.Invariant.{IsSafe, unlocks, reports, run-IsSafe}
use genkan.SessionLock.Safety.Release.{
  IsRound, grants, unlock_needs_authorization, authorized_unlocks,
}
use genkan.SessionLock.Safety.Readiness.{
  IsConfirmation, reports-prefix, report_needs-IsConfirmation, confirmation_reports,
}

abbrev granting : Presentation
granting = record {
  State = ℕ;
  receive_latest = λ s. (Refresh.unchanged, s);
  receive_deferred = λ s. (Refresh.unchanged, s);
  frame = λ s. none;
  lock_confirmed = λ s. s;
  input = λ s i. (true, 1);
  take_authorization = λ s. (ltb 0 s, 0);
}

abbrev pub working : Outside
working = record { write_ready = λ fd. none; roundtrip = none }

abbrev pub idle_device : ℕ → Device
idle_device i = record { feedback = none; allocation = none; attachment = none }

abbrev pub alice : Identity
alice = record { uid = 1000; username = codes "alice"; display_name = codes "Alice" }

abbrev requested_lock : LockRuntime granting
requested_lock = record {
  session_lock = true;
  surfaces = [];
  state = record { identity = alice; lifecycle = requesting; presentation_failed = false };
  presentation = 0;
  presentation_geometry = none;
  background_generation = 0;
  authentication_output = none;
  retiring_authentication = none;
  authentication_retirement = none;
  authentication_retirement_feedback = none;
  ready = 5 ∷ 6 ∷ [];
  failure = none;
  terminate = false;
  effects = [];
}

abbrev granted_lock : LockRuntime granting
granted_lock = record requested_lock {
  state = record { identity = alice; lifecycle = locked; presentation_failed = false };
  presentation = 1;
  ready = [];
}

requested_lock-IsSafe : IsSafe granting requested_lock
requested_lock-IsSafe = ground arith

granted_lock-IsSafe : IsSafe granting granted_lock
granted_lock-IsSafe = ground arith

abbrev one_round : Call
one_round = rounds working idle_device 20 []

abbrev history : List Call
history = locks working ∷ one_round ∷ finishes working ∷ []

run-IsSafe_example :
    IsSafe granting (run granting (initial granting alice 0 none (5 ∷ 6 ∷ [])) history)
run-IsSafe_example = run-IsSafe granting alice 0 none (5 ∷ 6 ∷ []) history

authorized_unlocks_example :
    ((round granting working idle_device 20 [] granted_lock).effects ≡ unlocked ∷ [])
    × ((round granting working idle_device 20 [] granted_lock).terminate ≡ true)
authorized_unlocks_example =
    authorized_unlocks granting working idle_device 20 [] granted_lock granted_lock-IsSafe refl refl
      refl

granted_round_unlocks : unlocks (step granting granted_lock one_round).effects ≢ 0
unfolding step
granted_round_unlocks e = omega (arith, ap unlocks authorized_unlocks_example.0, e)

unlock_needs_authorization_example :
    IsRound one_round
    × (granted_lock.state.lifecycle ≡ locked)
    × (grants granting granted_lock ≡ true)
unlock_needs_authorization_example =
    unlock_needs_authorization granting granted_lock one_round granted_round_unlocks

reports-prefix_example :
    (untold : List ℕ) × (reports
          (run granting (initial granting alice 0 none (5 ∷ 6 ∷ [])) history).effects
        ++ untold
      ≡ 5 ∷ 6 ∷ [])
reports-prefix_example = reports-prefix granting alice 0 none (5 ∷ 6 ∷ []) history

confirmation_reports_example :
    let s = step granting requested_lock (locks working) in
    (reports s.effects ≡ 5 ∷ 6 ∷ []) × (s.state.lifecycle ≡ locked) × (s.terminate ≡ false)
confirmation_reports_example =
    confirmation_reports granting working requested_lock requested_lock-IsSafe refl refl
      (λ fd. refl)

confirmation_tells : reports (step granting requested_lock (locks working)).effects ≢ []
confirmation_tells e = cc (confirmation_reports_example.0)

report_needs-IsConfirmation_example :
    IsConfirmation (locks working)
    × (requested_lock.state.lifecycle ≡ requesting)
    × (requested_lock.terminate ≡ false)
report_needs-IsConfirmation_example =
    report_needs-IsConfirmation granting requested_lock (locks working) requested_lock-IsSafe
      confirmation_tells

run-IsConsistent_example :
    IsConsistent (Scheduling.run (request_geometry default_redraw) (role ∷ media ∷ commits ∷ []))
run-IsConsistent_example = run-IsConsistent (role ∷ media ∷ commits ∷ [])

full_persists_example :
    (Scheduling.run
      (record default_redraw { redraw_pending = some RedrawKind.full })
      (requested RedrawKind.overlay ∷ media ∷ done ∷ [])).redraw_pending
    ≡ some RedrawKind.full
full_persists_example =
    full_persists (record default_redraw { redraw_pending = some RedrawKind.full })
      (requested RedrawKind.overlay ∷ media ∷ done ∷ []) ((λ e. cc), ((λ e. cc), ((λ e. cc), tt)))
      refl

overlay_progress-IsClassified_example :
    IsClassified default_redraw
      (should_render default_redraw 1 true)
      false
      (overlay_progress default_redraw 1 true false true)
overlay_progress-IsClassified_example = overlay_progress-IsClassified default_redraw 1 true false
