-- ===== src/SessionLock/Redraw/Scheduling.antt =====
-- The redraw scheduler of crates/session-lock/src/runtime.rs: requests are coalesced and not lost,
-- and a pass over the surfaces classifies each of them.
use genkan.Prelude.{
  ℕ, Bool, true, false, Option, some, List, [], ◌∷◌, ◌≡◌, refl, ◌↔◌, arith, is_some, All, ◌≢◌,
}
use genkan.SessionLock.Redraw.{
  RedrawKind, OverlayProgress, RedrawState, default_redraw, request, request_geometry,
  request_role_change, request_media, should_render, committed, frame_done, overlay_progress,
  request_frame_callback,
}

-- Every call that changes a surface's redraw state.
pub data Op : Type 0 where
  requested : RedrawKind → Op
  geometry role media done : Op
  commits : Op

abbrev pub step : RedrawState → Op → RedrawState
step r (requested k) = (request k r).0
step r geometry = request_geometry r
step r role = request_role_change r
step r media = (request_media r).0
step r done = frame_done r
step r commits = committed (request_frame_callback r) r

abbrev pub run : RedrawState → List Op → RedrawState
run r [] = r
run r (o ∷ os) = run (step r o) os

-- A geometry change is a pending full repaint, and a role change is a geometry change.
pub record IsConsistent (r : RedrawState) : Type 0 where
  pub geometry_full : r.geometry_pending ≡ true → r.redraw_pending ≡ some RedrawKind.full
  pub role_geometry : r.role_pending ≡ true → r.geometry_pending ≡ true

step-IsConsistent : (r : RedrawState) (o : Op) → IsConsistent r → IsConsistent (step r o)
unfolding request request_geometry request_role_change request_media committed frame_done
step-IsConsistent r o h = ground arith

run-IsConsistent_of : (r : RedrawState) (os : List Op) → IsConsistent r → IsConsistent (run r os)
run-IsConsistent_of r [] h = h
run-IsConsistent_of r (o ∷ os) h = run-IsConsistent_of (step r o) os (step-IsConsistent r o h)

-- In every redraw state that a new surface can reach, a pending geometry change is a pending full
-- repaint, and a pending role change is a pending geometry change.
pub run-IsConsistent : (os : List Op) → IsConsistent (run (request_geometry default_redraw) os)
unfolding request_geometry
run-IsConsistent os = run-IsConsistent_of _ os (ground arith)

full_step :
    (r : RedrawState) (o : Op)
    → o ≢ commits
    → r.redraw_pending ≡ some RedrawKind.full
    → (step r o).redraw_pending ≡ some RedrawKind.full
unfolding request request_geometry request_role_change request_media frame_done
full_step r (requested k) n h = ground arith
full_step r geometry n h = refl
full_step r role n h = refl
full_step r media n h = ground arith
full_step r done n h = h
full_step r commits n h = absurd (n refl)

-- A pending full repaint is neither dropped nor weakened by later requests: it stays until a
-- commit.
pub full_persists :
    (r : RedrawState) (os : List Op)
    → All (λ o. o ≢ commits) os
    → r.redraw_pending ≡ some RedrawKind.full
    → (run r os).redraw_pending ≡ some RedrawKind.full
full_persists r [] n h = h
full_persists r (o ∷ os) n h = full_persists (step r o) os n.1 (full_step r o n.0 h)

-- What a surface may do in a pass, by its redraw state and its buffers.
pub record IsClassified (r : RedrawState) (ready current : Bool) (p : OverlayProgress)
    : Type 0 where
  pub idle : (p ≡ OverlayProgress.none) ↔ (r.redraw_pending ≡ Option.none)
  pub stuck : (p ≡ OverlayProgress.blocked) ↔ ((is_some r.redraw_pending ≡ true) × (ready ≡ false))
  pub cheap : (p ≡ OverlayProgress.partial) ↔ (
      (r.redraw_pending ≡ some RedrawKind.overlay)
      × (ready ≡ true)
      × (r.geometry_pending ≡ false)
      × (current ≡ true))

-- With pending full repaints included, `overlay_progress` is `none` exactly when nothing is
-- pending, `blocked` exactly when something is pending that cannot be rendered yet, and `partial`
-- exactly when an overlay alone is pending, it can be rendered, no geometry change is pending, and
-- a reusable buffer shows the current background.
pub overlay_progress-IsClassified :
    (r : RedrawState) (count : ℕ) (reusable current : Bool)
    → IsClassified r
        (should_render r count reusable)
        current
        (overlay_progress r count reusable current true)
unfolding overlay_progress
overlay_progress-IsClassified r count reusable current = ground arith
