-- ===== src/SessionLock/Render.antt =====
-- crates/session-lock/src/runtime.rs: rendering one surface. Pixels, damage requests and messages
-- to the log are left out.
use genkan.Prelude.{
  ℕ, suc, ◌*◌, Bool, true, false, ◌&&◌, not, Option, none, some, List, [], ◌∷◌, ◌++◌, Text, codes,
  leb, ltb, ◌==◌, if◌then◌else◌, max, keep_if, modify, get_elem?, length,
}
use genkan.SessionLock.Frames.{Presentation, checked_mul}
use genkan.SessionLock.Redraw.{
  RedrawKind, buffer_count, request_role_change, request_frame_callback, committed,
  select_reusable_buffer,
}
use genkan.SessionLock.Geometry.{
  SizeError, overflow, empty, exceeds_limit, ok, err, buffer_size, aligned_buffer_capacity,
}
use genkan.SessionLock.Retirement.{retirement_committed}
use genkan.SessionLock.Runtime.{
  Error, runtime, Surface, SurfaceBuffer, next_generation, optional_eq, LockRuntime,
}
use mathlib.Core.Option

-- What the compositor and the shared memory answer while a surface is rendered. `feedback` is the
-- object for the presentation time, if the compositor offers one.
pub record Device : Type 0 where
  pub feedback : Option ℕ
  pub allocation : Option Text
  pub attachment : Option Text

abbrev pub size_error : SizeError → Error
size_error overflow = runtime (codes "compositor lock-surface dimensions overflow")
size_error empty = runtime (codes "compositor requested an empty lock surface")
size_error exceeds_limit =
    runtime (codes "compositor lock-surface dimensions exceed the supported limit")

abbrev pub max_surface_pixels : ℕ
max_surface_pixels = 16384 * 16384

abbrev pub max_buffer_bytes : ℕ
max_buffer_bytes = 256 * 1024 * 1024

-- The bytes of a buffer that is not too large to address.
safe_bytes : Option ℕ → Option ℕ
safe_bytes none = none
safe_bytes (some pixels) = if leb pixels max_surface_pixels then some (pixels * 4) else none

unfoldable pub buffer_bytes : ℕ → ℕ → Option ℕ
unfolding safe_bytes
buffer_bytes width height = safe_bytes (checked_mul width height)

-- The test of `retain`: the buffer belongs to the surface's size, geometry and role.
unfoldable pub is_current : ℕ × ℕ → Surface → SurfaceBuffer → Bool
is_current (w, h) s b =
    b.size.0 == w
    && (b.size.1 == h
        && (b.geometry_generation == s.geometry_generation
            && b.role_generation == s.role_generation))

unfoldable pub retain_buffers : ℕ × ℕ → Surface → Surface
unfolding is_current
retain_buffers size s = record s { buffers = keep_if (is_current size s) s.buffers }

-- The released buffers, as their indices and the generations of their backgrounds.
unfoldable pub reusable_buffers : ℕ → List SurfaceBuffer → List (ℕ × ℕ)
reusable_buffers i [] = []
reusable_buffers i (b ∷ bs) =
    let rest = reusable_buffers (suc i) bs in
    if b.released then (i, b.background_generation) ∷ rest else rest

-- The surface with a drawn buffer, and the index of that buffer.
pub data Drawn : Type 0 where
  drawn : Surface → ℕ → Drawn
  waiting : Surface → Drawn
  broken : Error → Drawn

abbrev requested_kind : Option RedrawKind → RedrawKind
requested_kind none = RedrawKind.full
requested_kind (some k) = k

redraw_buffer : ℕ → SurfaceBuffer → SurfaceBuffer
redraw_buffer generation b = record b { background_generation = generation }

fresh_buffer : ℕ × ℕ → ℕ → Surface → SurfaceBuffer
fresh_buffer size generation s = record {
  size = size;
  geometry_generation = s.geometry_generation;
  role_generation = s.role_generation;
  background_generation = generation;
  released = true;
}

allocate : Option ℕ → Option Text → ℕ × ℕ → ℕ → Surface → Drawn
unfolding fresh_buffer
allocate none error size generation s = broken (runtime (codes "lock buffer capacity overflow"))
allocate (some capacity) (some e) size generation s =
    broken (runtime (codes "could not allocate lock buffer: " ++ e))
allocate (some capacity) none size generation s =
    drawn (record s { buffers = s.buffers ++ (fresh_buffer size generation s ∷ []) })
      (length s.buffers)

-- A reused buffer ends with the current background on both paths: the full one redraws it, and the
-- other one is taken only where it is current already.
draw_into : Option ℕ → Device → ℕ → ℕ × ℕ → ℕ → Surface → Drawn
unfolding redraw_buffer allocate
draw_into (some index) d bytes size generation s =
    drawn (record s { buffers = modify index (redraw_buffer generation) s.buffers }) index
draw_into none d bytes size generation s =
    if leb buffer_count (length s.buffers)
    then waiting s
    else allocate (aligned_buffer_capacity bytes) d.allocation size generation s

commit_surface : ℕ → Surface → Surface
commit_surface index s = record s {
  buffers = modify index (λ b. record b { released = false }) s.buffers;
  redraw = committed (request_frame_callback s.redraw) s.redraw;
  first_presented = true;
}

-- The role is taken back where no presentation feedback can be had.
restore_role : Surface → Surface
restore_role s = record s {
  authentication = true;
  role_generation = next_generation s.role_generation;
  redraw = request_role_change s.redraw;
}

module _ (P : Presentation) where
  abbrev put_surface : ℕ → Surface → LockRuntime P → LockRuntime P
  put_surface index s r = record r { surfaces = modify index (λ _. s) r.surfaces }

  retirement_step : Bool → LockRuntime P → LockRuntime P
  retirement_step retiring r =
      if retiring
      then record r {
        authentication_retirement = Option.map retirement_committed r.authentication_retirement;
      }
      else r

  -- Attaching and committing the buffer.
  attach : ℕ → Device → Bool → Surface → ℕ → LockRuntime P → LockRuntime P × Option Error
  unfolding commit_surface retirement_step
  attach index d retiring s buffer r = elim d.attachment [
    | some e ↦ (put_surface index s r, some (runtime (codes "could not attach lock buffer: " ++ e)))
    | none ↦ (retirement_step retiring (put_surface index (commit_surface buffer s) r), none)
  ]

  -- A surface that gives authentication up asks for presentation feedback first.
  with_feedback : ℕ → Device → Surface → ℕ → LockRuntime P → LockRuntime P × Option Error
  unfolding attach restore_role
  with_feedback index d s buffer r = elim d.feedback [
    | some f ↦
        attach index d true s buffer (record r { authentication_retirement_feedback = some f })
    | none ↦ (
      put_surface index (restore_role s) (record r {
        retiring_authentication = none;
        authentication_retirement = none;
        authentication_retirement_feedback = none;
      }),
      none,
    )
  ]

  present : ℕ → Device → Bool → Drawn → LockRuntime P → LockRuntime P × Option Error
  unfolding attach with_feedback
  present index d retiring (broken e) r = (r, some e)
  present index d retiring (waiting s) r = (put_surface index s r, none)
  present index d retiring (drawn s buffer) r =
      if retiring then with_feedback index d s buffer r else attach index d false s buffer r

  render_sized : ℕ → Device → ℕ × ℕ → Surface → LockRuntime P → LockRuntime P × Option Error
  unfolding buffer_bytes present draw_into retain_buffers
  render_sized index d size s r =
      let retiring =
        s.redraw.role_pending
        && (not s.authentication && optional_eq r.retiring_authentication (some s.output)) in
      let kept = retain_buffers size s in
      let chosen =
        select_reusable_buffer (requested_kind s.redraw.redraw_pending) r.background_generation
          (reusable_buffers 0 kept.buffers) in
      elim (buffer_bytes size.0 size.1) [
        | none ↦ (r, some (runtime (codes "compositor requested an unsafe lock-surface size")))
        | some bytes ↦
            if ltb max_buffer_bytes bytes
            then (
              r,
              some (
                  runtime
                    (codes "compositor requested a lock buffer larger than the resource budget")),
            )
            else present index d retiring
                (draw_into chosen d bytes size r.background_generation kept) r
      ]

  render_surface : ℕ → Device → Surface → LockRuntime P → LockRuntime P × Option Error
  unfolding render_sized
  render_surface index d s r = elim s.size [
    | none ↦ (r, some (runtime (codes "attempted to render an unconfigured surface")))
    | some (width, height) ↦ elim (buffer_size width height (max s.scale 1)) [
      | err e ↦ (r, some (size_error e))
      | ok w h ↦ render_sized index d (w, h) s r
    ]
  ]

  -- An index outside the list would be a panic; the passes render indices of the list only.
  unfoldable pub render : ℕ → Device → LockRuntime P → LockRuntime P × Option Error
  unfolding render_surface
  render index d r = elim (get_elem? r.surfaces index) [
    | none ↦ (r, none)
    | some s ↦ render_surface index d s r
  ]
