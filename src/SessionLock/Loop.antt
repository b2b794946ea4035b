-- ===== src/SessionLock/Loop.antt =====
-- crates/session-lock/src/runtime.rs: the two passes over the surfaces and one round of the main
-- loop.
use genkan.Prelude.{
  ℕ, suc, Bool, true, false, ◌&&◌, ◌||◌, not, Option, none, some, List, [], ◌∷◌, ◌++◌, ◌==◌,
  if◌then◌else◌, max, any, keep_if, map, length,
}
use mathlib.Core.List.{reverse}
use genkan.SessionLock.Frames.{Presentation, Refresh}
use genkan.SessionLock.Lifecycle.{presentation_failed, update, authorize_unlock}
use genkan.SessionLock.Redraw.{
  OverlayProgress, OverlayProgressSummary, default_summary, should_render, overlay_progress,
  summarize, should_poll_deferred, should_allow_overlay_full,
}
use genkan.SessionLock.Geometry.{SizeResult, ok, err, buffer_size}
use genkan.SessionLock.Runtime.{
  Error, Surface, SurfaceBuffer, Outside, LockRuntime, fail, apply, apply_refresh,
  expire_authentication_retirement,
}
use genkan.SessionLock.Handlers.{Output, add_surface}
use genkan.SessionLock.Render.{Device, size_error, retain_buffers, render}

-- The loop over the buffers of a surface sets two flags: some buffer is released, and some released
-- buffer shows the current background.
unfoldable pub any_released : List SurfaceBuffer → Bool
any_released = any (λ b. b.released)

unfoldable pub any_current : ℕ → List SurfaceBuffer → Bool
any_current generation = any (λ b. b.released && b.background_generation == generation)

-- `overlay_progress` of a surface whose buffers are pruned already.
unfoldable pub surface_progress : ℕ → Bool → Surface → OverlayProgress
unfolding any_released any_current
surface_progress generation include_pending_full s =
    overlay_progress s.redraw (length s.buffers) (any_released s.buffers)
      (any_current generation s.buffers) include_pending_full

abbrev is_full_progress : OverlayProgress → Bool
is_full_progress OverlayProgress.full = true
is_full_progress _ = false

abbrev is_partial_progress : OverlayProgress → Bool
is_partial_progress OverlayProgress.partial = true
is_partial_progress _ = false

-- Whether `maintain_surfaces` renders a surface.
unfoldable pub needs_render : ℕ → Bool → Surface → Bool
unfolding surface_progress
needs_render generation allow_overlay_full s =
    should_render s.redraw (length s.buffers) (any_released s.buffers)
    && (allow_overlay_full || not (is_full_progress (surface_progress generation false s)))

-- A pass over the surfaces. Those with a size are pruned and visited, the others are skipped, and a
-- size that cannot be had ends the pass. It returns the surfaces, what was collected, and the
-- error.
module _ {ℓ} {A : Type ℓ} (visit : ℕ → Surface → A → A) where
  visit_sized : SizeResult → ℕ → Surface → A → Surface × A × Option Error
  visit_sized (err e) index s acc = (s, acc, some (size_error e))
  visit_sized (ok w h) index s acc =
      let kept = retain_buffers (w, h) s in (kept, visit index kept acc, none)

  visit_surface : ℕ → Surface → A → Surface × A × Option Error
  unfolding visit_sized
  visit_surface index s acc = elim s.size [
    | none ↦ (s, acc, none)
    | some (width, height) ↦ visit_sized (buffer_size width height (max s.scale 1)) index s acc
  ]

  unfoldable pub scan : ℕ → List Surface → A → List Surface × A × Option Error
  unfolding visit_surface
  scan index [] acc = ([], acc, none)
  scan index (s ∷ rest) acc =
      let (s', acc', error) = visit_surface index s acc in
      let (rest', acc'', error') = scan (suc index) rest acc' in
      elim error [ some e ↦ (s' ∷ rest, acc', some e) | none ↦ (s' ∷ rest', acc'', error') ]

-- The summary of `commit_partial_overlays`, with the indices to render, last one first.
collect_partial :
    ℕ → ℕ → Surface → OverlayProgressSummary × List ℕ → OverlayProgressSummary × List ℕ
unfolding surface_progress
collect_partial generation index s (summary, partial) =
    let progress = surface_progress generation true s in
    (summarize progress summary, if is_partial_progress progress then index ∷ partial else partial)

-- The indices that `maintain_surfaces` renders, each with its sort key, last one first.
collect_ready : ℕ → Bool → ℕ → Surface → List (ℕ × Bool) → List (ℕ × Bool)
unfolding needs_render
collect_ready generation allow index s acc =
    if needs_render generation allow s then (index, s.authentication) ∷ acc else acc

-- `sort_by_key` on the flag is stable: outputs without authentication come first.
unfoldable pub sort_by_authentication : List (ℕ × Bool) → List ℕ
sort_by_authentication xs =
    map (λ (x : ℕ × Bool). x.0) (keep_if (λ x. not x.1) xs)
    ++ map (λ (x : ℕ × Bool). x.0) (keep_if (λ x. x.1) xs)

module _ (P : Presentation) where
  unfoldable pub render_all : (ℕ → Device) → List ℕ → LockRuntime P → LockRuntime P × Option Error
  render_all device [] r = (r, none)
  render_all device (i ∷ is) r =
      let (r', error) = render P i (device i) r in
      let rest = render_all device is r' in elim error [ some e ↦ (r', some e) | none ↦ rest ]

  -- What a pass renders, unless its scan ended with an error.
  unfoldable pub render_partial :
      (ℕ → Device)
      → OverlayProgressSummary × List ℕ
      → Option Error
      → LockRuntime P
      → LockRuntime P × OverlayProgressSummary × Option Error
  render_partial device (summary, partial) (some e) r = (r, summary, some e)
  render_partial device (summary, partial) none r =
      let (r', fault) = render_all device (reverse partial) r in (r', summary, fault)

  unfoldable pub commit_partial_overlays :
      (ℕ → Device) → LockRuntime P → LockRuntime P × OverlayProgressSummary × Option Error
  unfolding collect_partial
  commit_partial_overlays device r =
      let scanned =
        scan (collect_partial r.background_generation) 0 r.surfaces (default_summary, []) in
      render_partial device scanned.1 scanned.2 (record r { surfaces = scanned.0 })

  unfoldable pub render_ready :
      (ℕ → Device) → List (ℕ × Bool) → Option Error → LockRuntime P → LockRuntime P × Option Error
  render_ready device ready (some e) r = (r, some e)
  render_ready device ready none r = render_all device (sort_by_authentication (reverse ready)) r

  unfoldable pub maintain_surfaces :
      (ℕ → Device) → Bool → LockRuntime P → LockRuntime P × Option Error
  unfolding collect_ready
  maintain_surfaces device allow_overlay_full r =
      let scanned =
        scan (collect_ready r.background_generation allow_overlay_full) 0 r.surfaces [] in
      render_ready device scanned.1 scanned.2 (record r { surfaces = scanned.0 })

  unfoldable pub add_surfaces : ℕ → List Output → LockRuntime P → LockRuntime P × Option Error
  add_surfaces now [] r = (r, none)
  add_surfaces now (o ∷ os) r =
      let (r', error) = add_surface P now o r in
      let rest = add_surfaces now os r' in elim error [ some e ↦ (r', some e) | none ↦ rest ]

  unfoldable pub reconcile_outputs : ℕ → List Output → LockRuntime P → LockRuntime P × Option Error
  unfolding add_surfaces
  reconcile_outputs now outputs r = if r.terminate then (r, none) else add_surfaces now outputs r

  -- `record_presentation_failure`.
  unfoldable pub record_failure : Refresh → LockRuntime P → LockRuntime P
  record_failure Refresh.failed r = record r { state = (update r.state presentation_failed).0 }
  record_failure _ r = r

  unfoldable pub refresh_priority : LockRuntime P → LockRuntime P × Refresh
  refresh_priority r =
      let (refresh, p) = P.receive_latest r.presentation in
      (record_failure refresh (record r { presentation = p }), refresh)

  unfoldable pub refresh_presentation : LockRuntime P → LockRuntime P × Refresh
  refresh_presentation r =
      let (refresh, p) = P.receive_deferred r.presentation in
      (record_failure refresh (record r { presentation = p }), refresh)

  -- The authorization of the presentation is taken, and spent on the lifecycle.
  unfoldable pub spend_authorization : Outside → LockRuntime P → LockRuntime P
  spend_authorization outside r =
      let (authorized, p) = P.take_authorization r.presentation in
      let taken = record r { presentation = p } in
      let (state, action) = authorize_unlock r.state in
      if authorized then apply P outside action (record taken { state = state }) else taken

  unfoldable pub finish_round :
      (ℕ → Device) → Bool → OverlayProgressSummary → LockRuntime P → LockRuntime P
  finish_round device poll_deferred summary r =
      let (r', error) =
        maintain_surfaces device (should_allow_overlay_full poll_deferred summary) r in
      elim error [ some e ↦ fail P e r' | none ↦ r' ]

  unfoldable pub poll : Bool → LockRuntime P → LockRuntime P
  poll poll_deferred r =
      let (r', refresh) = refresh_presentation r in
      if poll_deferred then apply_refresh P refresh r' else r

  unfoldable pub draw_round : (ℕ → Device) → Refresh → LockRuntime P → LockRuntime P
  draw_round device priority r =
      let (r', summary, error) = commit_partial_overlays device (apply_refresh P priority r) in
      let poll_deferred = should_poll_deferred priority summary in
      let rest = finish_round device poll_deferred summary (poll poll_deferred r') in
      elim error [ some e ↦ fail P e r' | none ↦ rest ]

  -- One round of the loop after the events were dispatched.
  unfoldable pub round : Outside → (ℕ → Device) → ℕ → List Output → LockRuntime P → LockRuntime P
  round outside device now outputs r =
      let (reconciled, error) = reconcile_outputs now outputs r in
      let (polled, priority) =
        refresh_priority (expire_authentication_retirement P now reconciled) in
      let authorized = spend_authorization outside polled in
      let drawn =
        if authorized.terminate then authorized else draw_round device priority authorized in
      if r.terminate then r else elim error [ some e ↦ fail P e reconciled | none ↦ drawn ]
