-- ===== src/SessionLock/Safety/Untouched.antt =====
-- The operations on surfaces leave the lock itself alone.
use genkan.Prelude.{ℕ, Bool, Option, none, some, List, [], ◌∷◌, ◌≡◌, refl, arith}
use genkan.SessionLock.Frames.{Presentation, Refresh}
use genkan.SessionLock.Lifecycle.{Lifecycle}
use genkan.SessionLock.Runtime.{
  Error, Effect, LockRuntime, apply_refresh, refresh_authentication_output,
  expire_authentication_retirement,
}
use genkan.SessionLock.Handlers.{
  Output, add_surface, scale_factor_changed, frame_callback, update_output, output_destroyed,
  presented, discarded,
}
use genkan.SessionLock.Loop.{
  commit_partial_overlays, maintain_surfaces, reconcile_outputs, render_all, add_surfaces,
  render_partial, render_ready, sort_by_authentication,
}
use genkan.SessionLock.Redraw.{OverlayProgressSummary}
use mathlib.Core.List.{reverse}
use genkan.SessionLock.Render.{Device, render}

-- The part of the runtime that decides about the lock.
pub record Core (S : Type 0) : Type 0 where
  pub lifecycle : Lifecycle
  pub session_lock : Bool
  pub ready : List ℕ
  pub effects : List Effect
  pub failure : Option Error
  pub terminate : Bool
  pub presentation : S

module _ (P : Presentation) where
  abbrev pub core : LockRuntime P → Core P.State
  core r = record {
    lifecycle = r.state.lifecycle;
    session_lock = r.session_lock;
    ready = r.ready;
    effects = r.effects;
    failure = r.failure;
    terminate = r.terminate;
    presentation = r.presentation;
  }

  pub core-refresh_authentication_output :
      (now : ℕ) (r : LockRuntime P) → core (refresh_authentication_output P now r) ≡ core r
  unfolding refresh_authentication_output
  core-refresh_authentication_output now r = ground arith

  pub core-expire :
      (now : ℕ) (r : LockRuntime P) → core (expire_authentication_retirement P now r) ≡ core r
  unfolding expire_authentication_retirement
  core-expire now r = ground arith

  pub core-apply_refresh : (x : Refresh) (r : LockRuntime P) → core (apply_refresh P x r) ≡ core r
  unfolding apply_refresh
  core-apply_refresh x r = ground arith

  pub core-render : (i : ℕ) (d : Device) (r : LockRuntime P) → core (render P i d r).0 ≡ core r
  unfolding render
  core-render i d r = ground arith

  pub core-add_surface :
      (now : ℕ) (o : Output) (r : LockRuntime P) → core (add_surface P now o r).0 ≡ core r
  unfolding add_surface refresh_authentication_output
  core-add_surface now o r = ground arith

  core-render_all :
      (d : ℕ → Device) (is : List ℕ) (r : LockRuntime P) → core (render_all P d is r).0 ≡ core r
  unfolding render_all
  core-render_all d [] r = refl
  core-render_all d (i ∷ is) r =
      ground (arith, core-render i (d i) r, core-render_all d is (render P i (d i) r).0)

  core-render_partial :
      (d : ℕ → Device) (x : OverlayProgressSummary × List ℕ) (e : Option Error) (r : LockRuntime P)
      → core (render_partial P d x e r).0 ≡ core r
  unfolding render_partial
  core-render_partial d (s, is) (some e) r = refl
  core-render_partial d (s, is) none r = core-render_all d (reverse is) r

  core-render_ready :
      (d : ℕ → Device) (x : List (ℕ × Bool)) (e : Option Error) (r : LockRuntime P)
      → core (render_ready P d x e r).0 ≡ core r
  unfolding render_ready
  core-render_ready d x (some e) r = refl
  core-render_ready d x none r = core-render_all d (sort_by_authentication (reverse x)) r

  pub core-commit_partial_overlays :
      (d : ℕ → Device) (r : LockRuntime P) → core (commit_partial_overlays P d r).0 ≡ core r
  unfolding commit_partial_overlays
  core-commit_partial_overlays d r = core-render_partial d _ _ _

  pub core-maintain_surfaces :
      (d : ℕ → Device) (allow : Bool) (r : LockRuntime P)
      → core (maintain_surfaces P d allow r).0 ≡ core r
  unfolding maintain_surfaces
  core-maintain_surfaces d allow r = core-render_ready d _ _ _

  core-add_surfaces :
      (now : ℕ) (os : List Output) (r : LockRuntime P) → core (add_surfaces P now os r).0 ≡ core r
  unfolding add_surfaces
  core-add_surfaces now [] r = refl
  core-add_surfaces now (o ∷ os) r =
      ground (arith, core-add_surface now o r, core-add_surfaces now os (add_surface P now o r).0)

  pub core-reconcile_outputs :
      (now : ℕ) (os : List Output) (r : LockRuntime P)
      → core (reconcile_outputs P now os r).0 ≡ core r
  unfolding reconcile_outputs
  core-reconcile_outputs now os r = ground (arith, core-add_surfaces now os r)

  pub core-scale_factor_changed :
      (surface scale : ℕ) (r : LockRuntime P)
      → core (scale_factor_changed P surface scale r) ≡ core r
  unfolding scale_factor_changed
  core-scale_factor_changed surface scale r = refl

  pub core-frame_callback :
      (surface : ℕ) (r : LockRuntime P) → core (frame_callback P surface r) ≡ core r
  unfolding frame_callback
  core-frame_callback surface r = ground arith

  pub core-update_output :
      (now : ℕ) (o : Output) (r : LockRuntime P) → core (update_output P now o r) ≡ core r
  unfolding update_output refresh_authentication_output
  core-update_output now o r = ground arith

  pub core-output_destroyed :
      (now o : ℕ) (r : LockRuntime P) → core (output_destroyed P now o r) ≡ core r
  unfolding output_destroyed refresh_authentication_output
  core-output_destroyed now o r = ground arith

  pub core-presented :
      (now feedback : ℕ) (r : LockRuntime P) → core (presented P now feedback r) ≡ core r
  unfolding presented refresh_authentication_output
  core-presented now feedback r = ground arith

  pub core-discarded :
      (feedback surface : ℕ) (r : LockRuntime P) → core (discarded P feedback surface r) ≡ core r
  unfolding discarded
  core-discarded feedback surface r = ground arith
