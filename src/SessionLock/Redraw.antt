-- ===== src/SessionLock/Redraw.antt =====
-- crates/session-lock/src/runtime.rs: when a surface is redrawn, and how much of it.
pub mod Scheduling
use genkan.Prelude.{
  ℕ, Bool, true, false, ◌&&◌, ◌||◌, not, Option, some, List, [], ◌∷◌, ltb, ◌==◌, if◌then◌else◌,
  is_some, or_else, ◌^◌,
}
use genkan.SessionLock.Frames.{Refresh}

pub data RedrawKind : Type 0 where
  overlay full : RedrawKind

pub data OverlayProgress : Type 0 where
  none partial full blocked : OverlayProgress

pub record RedrawState : Type 0 where
  pub frame_pending : Bool
  pub redraw_pending : Option RedrawKind
  pub geometry_pending : Bool
  pub role_pending : Bool

abbrev pub default_redraw : RedrawState
default_redraw = record {
  frame_pending = false;
  redraw_pending = Option.none;
  geometry_pending = false;
  role_pending = false;
}

abbrev pub buffer_count : ℕ
buffer_count = 2

abbrev pub is_full : Option RedrawKind → Bool
is_full (some RedrawKind.full) = true
is_full _ = false

abbrev pub is_overlay : Option RedrawKind → Bool
is_overlay (some RedrawKind.overlay) = true
is_overlay _ = false

unfoldable pub redraw_can_progress : ℕ → Bool → Bool
redraw_can_progress current_buffer_count reusable =
    reusable || ltb current_buffer_count buffer_count

-- The methods of `RedrawState`.
unfoldable pub request : RedrawKind → RedrawState → RedrawState × Bool
request kind r = (
  if not (is_full r.redraw_pending) then record r { redraw_pending = some kind } else r,
  not r.frame_pending,
)

unfoldable pub request_geometry : RedrawState → RedrawState
request_geometry r = record r { redraw_pending = some RedrawKind.full; geometry_pending = true }

unfoldable pub request_role_change : RedrawState → RedrawState
request_role_change r = record r {
  redraw_pending = some RedrawKind.full;
  geometry_pending = true;
  role_pending = true;
}

unfoldable pub request_media : RedrawState → RedrawState × Bool
unfolding request
request_media r = if is_overlay r.redraw_pending then (r, false) else request RedrawKind.full r

unfoldable pub should_render : RedrawState → ℕ → Bool → Bool
unfolding redraw_can_progress
should_render r current_buffer_count reusable =
    is_some r.redraw_pending
    && (r.geometry_pending
        || (not r.frame_pending && redraw_can_progress current_buffer_count reusable))

unfoldable pub request_frame_callback : RedrawState → Bool
request_frame_callback r = not r.frame_pending

unfoldable pub committed : Bool → RedrawState → RedrawState
committed requested_frame_callback r = record {
  frame_pending = r.frame_pending || requested_frame_callback;
  redraw_pending = Option.none;
  geometry_pending = false;
  role_pending = false;
}

unfoldable pub frame_done : RedrawState → RedrawState
frame_done r = record r { frame_pending = false }

-- The last part of `overlay_progress`, for a pending overlay.
pending_overlay : RedrawState → ℕ → Bool → Bool → OverlayProgress
unfolding should_render
pending_overlay redraw count reusable current_background_reusable =
    if not (should_render redraw count reusable)
    then OverlayProgress.blocked
    else if redraw.geometry_pending || not current_background_reusable
    then OverlayProgress.full
    else OverlayProgress.partial

pending_full : RedrawState → ℕ → Bool → Bool → OverlayProgress
unfolding should_render
pending_full redraw count reusable include_pending_full =
    if include_pending_full
    then if should_render redraw count reusable
      then OverlayProgress.full
      else OverlayProgress.blocked
    else OverlayProgress.none

progress_of : Option RedrawKind → RedrawState → ℕ → Bool → Bool → Bool → OverlayProgress
unfolding pending_overlay pending_full
progress_of (some RedrawKind.overlay) r count reusable current include =
    pending_overlay r count reusable current
progress_of (some RedrawKind.full) r count reusable current include =
    pending_full r count reusable include
progress_of Option.none r count reusable current include = OverlayProgress.none

unfoldable pub overlay_progress : RedrawState → ℕ → Bool → Bool → Bool → OverlayProgress
unfolding progress_of
overlay_progress redraw count reusable current_background_reusable include_pending_full =
    progress_of redraw.redraw_pending redraw count reusable current_background_reusable
      include_pending_full

pub record OverlayProgressSummary : Type 0 where
  pub partial : Bool
  pub full : Bool
  pub blocked : Bool
  pub unblocked : Bool

abbrev pub default_summary : OverlayProgressSummary
default_summary = record { partial = false; full = false; blocked = false; unblocked = false }

-- What one surface adds to the summary.
unfoldable pub summarize : OverlayProgress → OverlayProgressSummary → OverlayProgressSummary
summarize OverlayProgress.none s = record s { unblocked = true }
summarize OverlayProgress.partial s = record s { unblocked = true; partial = true }
summarize OverlayProgress.full s = record s { unblocked = true; full = true }
summarize OverlayProgress.blocked s = record s { blocked = true }

unfoldable pub should_poll_deferred : Refresh → OverlayProgressSummary → Bool
should_poll_deferred Refresh.unchanged p =
    if p.blocked then p.unblocked else not p.partial || p.full
should_poll_deferred Refresh.overlay p = p.full || (p.blocked && p.unblocked)
should_poll_deferred Refresh.frame p = false
should_poll_deferred Refresh.failed p = false

unfoldable pub should_allow_overlay_full : Bool → OverlayProgressSummary → Bool
should_allow_overlay_full poll_deferred p = poll_deferred || p.full

-- The first reusable buffer, as an index and the generation of its background.
first_index : List (ℕ × ℕ) → Option ℕ
first_index [] = Option.none
first_index (x ∷ xs) = some x.0

find_generation : ℕ → List (ℕ × ℕ) → Option ℕ
find_generation g [] = Option.none
find_generation g ((i, generation) ∷ xs) =
    let rest = find_generation g xs in if generation == g then some i else rest

unfoldable pub select_reusable_buffer : RedrawKind → ℕ → List (ℕ × ℕ) → Option ℕ
unfolding first_index find_generation
select_reusable_buffer RedrawKind.overlay background_generation reusable =
    or_else (find_generation background_generation reusable) (first_index reusable)
select_reusable_buffer RedrawKind.full background_generation reusable = first_index reusable
