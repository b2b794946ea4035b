-- ===== src/SessionLock/Runtime.antt =====
-- crates/session-lock/src/runtime.rs: the state of the lock runtime and the operations that its
-- callbacks and its loop share. Objects of the compositor are numbers. What the process does
-- outside (readiness messages, the unlock request) is recorded in `effects`, newest first.
use genkan.Prelude.{
  ℕ, ◌+◌, ◌%◌, ◌^◌, Bool, true, false, ◌&&◌, ◌||◌, not, Option, none, some, List, [], ◌∷◌, ◌++◌,
  Text, codes, ◌==◌, if◌then◌else◌, is_some, or_else, map, position, modify, get_elem?,
}
use genkan.SessionLock.Frames.{Presentation, Refresh}
use genkan.SessionLock.Lifecycle.{State, Action, runtime_failed, update}
use genkan.SessionLock.Redraw.{RedrawKind, RedrawState, request, request_media, request_role_change}
use genkan.SessionLock.Geometry.{FrameGeometry, frame_geometry, overlay_redraw_kind}
use genkan.SessionLock.Retirement.{
  AuthenticationRetirement, begin, expired, Candidate, select_authentication_index,
}

pub data Error : Type 0 where
  missing_protocol runtime : Text → Error
  lock_finished : Error

pub data Effect : Type 0 where
  reported : ℕ → Effect
  unlocked : Effect

-- `released` is `pool.canvas(&buffer).is_some()`: the compositor no longer reads the buffer.
pub record SurfaceBuffer : Type 0 where
  pub size : ℕ × ℕ
  pub geometry_generation : ℕ
  pub role_generation : ℕ
  pub background_generation : ℕ
  pub released : Bool

-- The overlay cache and the pixels are left out.
pub record Surface : Type 0 where
  pub output : ℕ
  pub output_name : Option Text
  pub lock_surface : ℕ
  pub size : Option (ℕ × ℕ)
  pub scale : ℕ
  pub geometry_generation : ℕ
  pub role_generation : ℕ
  pub buffers : List SurfaceBuffer
  pub authentication : Bool
  pub redraw : RedrawState
  pub first_presented : Bool

-- `u64::wrapping_add(1)`.
abbrev pub next_generation : ℕ → ℕ
next_generation g = (g + 1) % 2 ^ 64

-- `S` is the state of the presentation.
pub record Runtime (S : Type 0) : Type 0 where
  pub session_lock : Bool
  pub surfaces : List Surface
  pub state : State
  pub presentation : S
  pub presentation_geometry : Option FrameGeometry
  pub background_generation : ℕ
  pub authentication_output : Option Text
  pub retiring_authentication : Option ℕ
  pub authentication_retirement : Option AuthenticationRetirement
  pub authentication_retirement_feedback : Option ℕ
  pub ready : List ℕ
  pub failure : Option Error
  pub terminate : Bool
  pub effects : List Effect

-- The system calls that can fail: writing the readiness message to a descriptor, and the round trip
-- after the unlock request. `none` is success, `some` holds the error's text.
pub record Outside : Type 0 where
  pub write_ready : ℕ → Option Text
  pub roundtrip : Option Text

unfoldable pub surface_candidate : Surface → Candidate
surface_candidate s = record {
  name = s.output_name;
  configured = is_some s.size;
  authentication = s.authentication;
}

-- `set_authentication` on one surface.
unfoldable pub set_role : Bool → Surface → Surface
set_role authentication s =
    let changed = record s {
      authentication = authentication;
      role_generation = next_generation s.role_generation;
      redraw = if is_some s.size then request_role_change s.redraw else s.redraw;
    } in
    elim s.authentication [
      | true ↦ if authentication then s else changed
      | false ↦ if authentication then changed else s
    ]

abbrev is_full_kind : RedrawKind → Bool
is_full_kind RedrawKind.full = true
is_full_kind RedrawKind.overlay = false

unfoldable pub redraw_surface : RedrawKind → Surface → Surface
redraw_surface kind s =
    if is_some s.size && (is_full_kind kind || s.authentication)
    then record s { redraw = (request kind s.redraw).0 }
    else s

unfoldable pub redraw_surface_media : Surface → Surface
redraw_surface_media s =
    if is_some s.size then record s { redraw = (request_media s.redraw).0 } else s

-- `ReadySignal::apply`: the descriptors are drained even where a write fails, and those after the
-- failing one are dropped unwritten.
unfoldable pub write_all_ready : (ℕ → Option Text) → List ℕ → List Effect × Option Text
write_all_ready write [] = ([], none)
write_all_ready write (fd ∷ fds) =
    let rest = write_all_ready write fds in
    elim (write fd) [ none ↦ (rest.0 ++ (reported fd ∷ []), rest.1) | some e ↦ ([], some e) ]

abbrev pub optional_eq : Option ℕ → Option ℕ → Bool
optional_eq none none = true
optional_eq (some a) (some b) = a == b
optional_eq _ _ = false

module _ (P : Presentation) where
  open P use {frame, lock_confirmed}

  abbrev pub LockRuntime : Type 0
  LockRuntime = Runtime P.State

  unfoldable pub fail : Error → LockRuntime → LockRuntime
  fail error r = record r {
    state = (update r.state runtime_failed).0;
    failure = or_else r.failure (some error);
    terminate = true;
  }

  unfoldable pub redraw_all_surfaces : RedrawKind → LockRuntime → LockRuntime
  redraw_all_surfaces kind r = record r { surfaces = map (redraw_surface kind) r.surfaces }

  unfoldable pub redraw_media : LockRuntime → LockRuntime
  redraw_media r =
      if r.terminate then r else record r { surfaces = map redraw_surface_media r.surfaces }

  -- `record_full_frame` with the frame that the presentation shows.
  unfoldable pub record_full_frame : LockRuntime → LockRuntime
  record_full_frame r = record r {
    presentation_geometry = frame_geometry (frame r.presentation);
    background_generation = next_generation r.background_generation;
  }

  unfoldable pub classify_overlay_redraw : LockRuntime → LockRuntime × RedrawKind
  classify_overlay_redraw r =
      let current = frame_geometry (frame r.presentation) in
      let kind = overlay_redraw_kind r.presentation_geometry current in
      (
        elim kind [
          | RedrawKind.full ↦ record r {
            presentation_geometry = current;
            background_generation = next_generation r.background_generation;
          }
          | RedrawKind.overlay ↦ r
        ],
        kind,
      )

  unfoldable pub apply_refresh : Refresh → LockRuntime → LockRuntime
  unfolding redraw_media record_full_frame redraw_all_surfaces classify_overlay_redraw
  apply_refresh Refresh.unchanged r = r
  apply_refresh Refresh.frame r = redraw_media (record_full_frame r)
  apply_refresh Refresh.overlay r =
      let (r', kind) = classify_overlay_redraw r in redraw_all_surfaces kind r'
  apply_refresh Refresh.failed r = redraw_media (record_full_frame r)

  unfoldable pub set_authentication : ℕ → Bool → LockRuntime → LockRuntime
  set_authentication index authentication r = record r {
    surfaces = modify index (set_role authentication) r.surfaces;
  }

  abbrev pub output_at : LockRuntime → ℕ → Option ℕ
  output_at r index = elim (get_elem? r.surfaces index) [ none ↦ none | some s ↦ some s.output ]

  unfoldable pub refresh_authentication_output : ℕ → LockRuntime → LockRuntime
  unfolding set_authentication
  refresh_authentication_output now r =
      let selected =
        select_authentication_index (map surface_candidate r.surfaces) r.authentication_output in
      let current = position (λ s. s.authentication) r.surfaces in
      if is_some r.retiring_authentication || optional_eq current selected
      then r
      else elim current [
        | some index ↦ set_authentication index false (record r {
          retiring_authentication = output_at r index;
          authentication_retirement = some (begin now);
          authentication_retirement_feedback = none;
        })
        | none ↦ elim selected [ some index ↦ set_authentication index true r | none ↦ r ]
      ]

  -- The surface that a retirement is taken back to, if it is still there and configured.
  abbrev pub retiring_index : LockRuntime → Option ℕ
  retiring_index r = elim r.retiring_authentication [
    | none ↦ none
    | some output ↦ position (λ s. s.output == output && is_some s.size) r.surfaces
  ]

  has_expired : ℕ → Option AuthenticationRetirement → Bool
  has_expired now none = false
  has_expired now (some retirement) = expired retirement now

  unfoldable pub expire_authentication_retirement : ℕ → LockRuntime → LockRuntime
  unfolding has_expired refresh_authentication_output set_authentication
  expire_authentication_retirement now r =
      let cleared = record r {
        authentication_retirement_feedback = none;
        authentication_retirement = none;
        retiring_authentication = none;
      } in
      if not (has_expired now r.authentication_retirement) then r else elim (retiring_index r) [
        | some index ↦ set_authentication index true cleared
        | none ↦ refresh_authentication_output now cleared
      ]

  -- `apply`, without the branches that exist under the feature `lock-test` only.
  report_outcome : Option Text → LockRuntime → LockRuntime
  unfolding fail
  report_outcome none r = r
  report_outcome (some e) r = fail (runtime (codes "could not report lock readiness: " ++ e)) r

  confirm_presentation : LockRuntime → LockRuntime
  unfolding record_full_frame redraw_all_surfaces
  confirm_presentation r =
      if r.terminate
      then r
      else redraw_all_surfaces RedrawKind.full
          (record_full_frame (record r { presentation = lock_confirmed r.presentation }))

  report_ready_action : Outside → LockRuntime → LockRuntime
  unfolding report_outcome confirm_presentation
  report_ready_action outside r =
      let (written, error) = write_all_ready outside.write_ready r.ready in
      confirm_presentation
        (report_outcome error (record r { ready = []; effects = written ++ r.effects }))

  synchronize : Option Text → LockRuntime → LockRuntime
  unfolding fail
  synchronize none r = r
  synchronize (some e) r = fail (runtime (codes "could not synchronize authorized unlock: " ++ e)) r

  unlock_action : Outside → LockRuntime → LockRuntime
  unfolding synchronize
  unlock_action outside r =
      let unlocking = record r { session_lock = false; effects = unlocked ∷ r.effects } in
      let synchronized = if r.session_lock then synchronize outside.roundtrip unlocking else r in
      record synchronized { terminate = true }

  unfoldable pub apply : Outside → Action → LockRuntime → LockRuntime
  unfolding report_ready_action unlock_action fail
  apply outside Action.none r = r
  apply outside Action.report_ready r = report_ready_action outside r
  apply outside Action.abort r = fail lock_finished r
  apply outside Action.unlock_and_synchronize r = unlock_action outside r
