-- ===== src/SessionLock/Safety/Quiet.antt =====
-- The calls of crates/session-lock/src/runtime.rs that neither confirm the lock nor run a round of
-- the loop. All of them leave the lock object and the record of what was done outside alone.
use genkan.Prelude.{refl, arith}
use genkan.SessionLock.Frames.{Presentation}
use genkan.SessionLock.Lifecycle.{update}
use genkan.SessionLock.Runtime.{Outside, LockRuntime, fail, apply}
use genkan.SessionLock.Handlers.{finished}
use genkan.SessionLock.System.{
  Call, locks, finishes, configures, rescales, frames, adds_output, updates_output, removes_output,
  presents, discards, keys, releases, dispatch_fails, rounds, step,
}
use genkan.SessionLock.Safety.Untouched.{
  core-scale_factor_changed, core-frame_callback, core-update_output, core-output_destroyed,
  core-presented, core-discarded,
}
use genkan.SessionLock.Safety.Advance.{
  Advances, Advances-of_core, Advances-fail, Advances-configure, Advances-new_output,
  Advances-handle_key,
}

abbrev pub IsQuiet : Call → Type 0
IsQuiet (locks o) = ⊥
IsQuiet (rounds o d now outputs) = ⊥
IsQuiet _ = Unit {0}

module _ (P : Presentation) where
  Advances-finished : (o : Outside) (r : LockRuntime P) → Advances P r (finished P o r)
  unfolding finished update apply fail
  Advances-finished o r = ground arith

  pub Advances-step : (r : LockRuntime P) (c : Call) → IsQuiet c → Advances P r (step P r c)
  unfolding step
  Advances-step r (locks o) q = absurd q
  Advances-step r (rounds o d now outputs) q = absurd q
  Advances-step r (finishes o) q = Advances-finished o r
  Advances-step r (dispatch_fails e) q = Advances-fail P e r
  Advances-step r (configures now s size) q = Advances-configure P now s size r
  Advances-step r (adds_output now o) q = Advances-new_output P now o r
  Advances-step r (keys k t) q = Advances-handle_key P k t r
  Advances-step r (rescales s scale) q =
      Advances-of_core P r _ (core-scale_factor_changed P s scale r)
  Advances-step r (frames s) q = Advances-of_core P r _ (core-frame_callback P s r)
  Advances-step r (updates_output now o) q = Advances-of_core P r _ (core-update_output P now o r)
  Advances-step r (removes_output now o) q =
      Advances-of_core P r _ (core-output_destroyed P now o r)
  Advances-step r (presents now f) q = Advances-of_core P r _ (core-presented P now f r)
  Advances-step r (discards f s) q = Advances-of_core P r _ (core-discarded P f s r)
  Advances-step r (releases s i) q = Advances-of_core P r _ refl
