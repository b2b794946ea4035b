-- ===== src/SessionLock/System.antt =====
-- crates/session-lock/src/runtime.rs: the lock runtime as a system of calls, in any order: the
-- compositor's callbacks, the release of a buffer, and the rounds of the main loop.
use genkan.Prelude.{ℕ, true, false, Option, none, List, [], ◌∷◌, Text, modify, ◌==◌}
use genkan.SessionLock.Frames.{Presentation}
use genkan.SessionLock.Geometry.{frame_geometry}
use genkan.SessionLock.Lifecycle.{Identity, new}
use genkan.SessionLock.Runtime.{Error, Surface, Outside, LockRuntime, fail}
use genkan.SessionLock.Handlers.{
  Output, Keysym, modify_first, locked, finished, configure, scale_factor_changed, frame_callback,
  new_output, update_output, output_destroyed, presented, discarded, handle_key,
}
use genkan.SessionLock.Render.{Device}
use genkan.SessionLock.Loop.{round}

pub data Call : Type 0 where
  locks finishes : Outside → Call
  configures : ℕ → ℕ → ℕ × ℕ → Call
  rescales : ℕ → ℕ → Call
  frames : ℕ → Call
  adds_output updates_output : ℕ → Output → Call
  removes_output : ℕ → ℕ → Call
  presents discards : ℕ → ℕ → Call
  keys : Keysym → Option Text → Call
  releases : ℕ → ℕ → Call
  dispatch_fails : Error → Call
  rounds : Outside → (ℕ → Device) → ℕ → List Output → Call

release_buffer : ℕ → Surface → Surface
release_buffer index s = record s {
  buffers = modify index (λ b. record b { released = true }) s.buffers;
}

module _ (P : Presentation) where
  -- The runtime of `run`, once the lock was requested, with no surface yet.
  unfoldable pub initial : Identity → P.State → Option Text → List ℕ → LockRuntime P
  initial identity presentation authentication_output ready = record {
    session_lock = true;
    surfaces = [];
    state = new identity;
    presentation = presentation;
    presentation_geometry = frame_geometry (P.frame presentation);
    background_generation = 1;
    authentication_output = authentication_output;
    retiring_authentication = none;
    authentication_retirement = none;
    authentication_retirement_feedback = none;
    ready = ready;
    failure = none;
    terminate = false;
    effects = [];
  }

  unfoldable pub step : LockRuntime P → Call → LockRuntime P
  unfolding release_buffer
  step r (locks outside) = locked P outside r
  step r (finishes outside) = finished P outside r
  step r (configures now surface size) = configure P now surface size r
  step r (rescales surface scale) = scale_factor_changed P surface scale r
  step r (frames surface) = frame_callback P surface r
  step r (adds_output now output) = new_output P now output r
  step r (updates_output now output) = update_output P now output r
  step r (removes_output now output) = output_destroyed P now output r
  step r (presents now feedback) = presented P now feedback r
  step r (discards feedback surface) = discarded P feedback surface r
  step r (keys keysym utf8) = handle_key P keysym utf8 r
  step r (releases surface index) = record r {
    surfaces = modify_first (λ s. s.lock_surface == surface) (release_buffer index) r.surfaces;
  }
  step r (dispatch_fails e) = fail P e r
  step r (rounds outside device now outputs) = round P outside device now outputs r

  abbrev pub run : LockRuntime P → List Call → LockRuntime P
  run r [] = r
  run r (c ∷ cs) = run (step r c) cs
