-- ===== src/SessionLock/Handlers.antt =====
-- crates/session-lock/src/runtime.rs: the callbacks through which the compositor drives the lock.
use genkan.Prelude.{
  ℕ, Bool, false, ◌&&◌, ◌||◌, not, Option, none, some, List, [], ◌∷◌, Text, codes, leb, ltb, ◌==◌,
  if◌then◌else◌, is_some, max, ◌++◌, any, keep_if, position, modify,
}
use genkan.SessionLock.Frames.{Presentation, Input, text, backspace, submit, cancel, next_page}
use genkan.SessionLock.Lifecycle.{State, Action, lock_confirmed, lock_finished, update}
use genkan.SessionLock.Redraw.{
  RedrawKind, default_redraw, request_geometry, request_role_change, frame_done,
}
use mathlib.Core.Option
use genkan.SessionLock.Retirement.{
  AuthenticationRetirement, accepts_presentation, retirement_discarded,
}
use genkan.SessionLock.Runtime.{
  Error, runtime, Surface, Outside, next_generation, optional_eq, LockRuntime, fail,
  redraw_all_surfaces, classify_overlay_redraw, refresh_authentication_output, apply,
}

-- What the output registry knows of an output, and the surface that would be created for it.
pub record Output : Type 0 where
  pub id : ℕ
  pub name : Option Text
  pub fresh_surface : ℕ

pub data Keysym : Type 0 where
  back_space return kp_enter escape tab other : Keysym

-- `char::is_control`.
abbrev is_control : ℕ → Bool
is_control c = ltb c 32 || (leb 127 c && ltb c 160)

text_input : Option Text → Option Input
text_input none = none
text_input (some t) = if any is_control t then none else some (text t)

unfoldable pub key_input : Keysym → Option Text → Option Input
unfolding text_input
key_input back_space utf8 = some backspace
key_input return utf8 = some submit
key_input kp_enter utf8 = some submit
key_input escape utf8 = some cancel
key_input tab utf8 = some next_page
key_input other utf8 = text_input utf8

unfoldable pub lock_confirmation_action : State → Bool → State × Action
lock_confirmation_action s blocked = if blocked then (s, Action.none) else update s lock_confirmed

new_surface : Output → Surface
new_surface o = record {
  output = o.id;
  output_name = o.name;
  lock_surface = o.fresh_surface;
  size = none;
  scale = 1;
  geometry_generation = 0;
  role_generation = 0;
  buffers = [];
  authentication = false;
  redraw = record default_redraw { redraw_pending = some RedrawKind.full };
  first_presented = false;
}

-- `configure` on the surface that it names.
configure_surface : ℕ × ℕ → Surface → Surface
configure_surface new_size s = record s {
  size = some new_size;
  geometry_generation = next_generation s.geometry_generation;
  redraw = request_geometry s.redraw;
}

abbrev same_size : Option (ℕ × ℕ) → ℕ × ℕ → Bool
same_size none (w, h) = false
same_size (some (a, b)) (w, h) = a == w && b == h

unfoldable pub configured : ℕ × ℕ → Surface → Surface
unfolding configure_surface
configured new_size s = if same_size s.size new_size then s else configure_surface new_size s

unfoldable pub rescaled : ℕ → Surface → Surface
rescaled scale s = if s.scale == max scale 1 then s else record s {
  scale = max scale 1;
  geometry_generation = next_generation s.geometry_generation;
  redraw = request_geometry s.redraw;
}

abbrev named : Option Text → Surface → Surface
named name s = record s { output_name = name }

-- The first element that passes the test is replaced by its image.
abbrev pub modify_first {ℓ} : {A : Type ℓ} → (A → Bool) → (A → A) → List A → List A
modify_first p f [] = []
modify_first p f (x ∷ xs) = let rest = modify_first p f xs in if p x then f x ∷ xs else x ∷ rest

module _ (P : Presentation) where
  -- `locked` and `finished`.
  unfoldable pub locked : Outside → LockRuntime P → LockRuntime P
  unfolding lock_confirmation_action
  locked outside r =
      let (state, action) = lock_confirmation_action r.state (is_some r.failure || r.terminate) in
      apply P outside action (record r { state = state })

  unfoldable pub finished : Outside → LockRuntime P → LockRuntime P
  finished outside r =
      let (state, action) = update r.state lock_finished in
      apply P outside action (record r { state = state })

  unfoldable pub configure : ℕ → ℕ → ℕ × ℕ → LockRuntime P → LockRuntime P
  unfolding configured
  configure now surface new_size r = elim (position (λ s. s.lock_surface == surface) r.surfaces) [
    | none ↦ fail P (runtime (codes "configured an unknown lock surface")) r
    | some index ↦
        refresh_authentication_output P now
          (record r { surfaces = modify index (configured new_size) r.surfaces })
  ]

  -- A negative scale counts as 0: both become 1.
  unfoldable pub scale_factor_changed : ℕ → ℕ → LockRuntime P → LockRuntime P
  unfolding rescaled
  scale_factor_changed surface scale r = record r {
    surfaces = modify_first (λ s. s.lock_surface == surface) (rescaled scale) r.surfaces;
  }

  unfoldable pub frame_callback : ℕ → LockRuntime P → LockRuntime P
  frame_callback surface r = if r.terminate then r else record r {
    surfaces =
        modify_first (λ s. s.lock_surface == surface)
          (λ s. record s { redraw = frame_done s.redraw }) r.surfaces;
  }

  unfoldable pub add_surface : ℕ → Output → LockRuntime P → LockRuntime P × Option Error
  unfolding new_surface
  add_surface now output r =
      if any (λ s. s.output == output.id) r.surfaces
      then (r, none)
      else if not r.session_lock
      then (r, some (runtime (codes "lock surface requested without a lock")))
      else (
        refresh_authentication_output P now
            (record r { surfaces = r.surfaces ++ (new_surface output ∷ []) }),
        none,
      )

  fail_on : Option Error → LockRuntime P → LockRuntime P
  fail_on none r = r
  fail_on (some e) r = fail P e r

  unfoldable pub new_output : ℕ → Output → LockRuntime P → LockRuntime P
  unfolding add_surface fail_on
  new_output now output r =
      if r.session_lock && not r.terminate
      then if any (λ s. s.output == output.id) r.surfaces
        then refresh_authentication_output P now (record r {
          surfaces = modify_first (λ s. s.output == output.id) (named output.name) r.surfaces;
        })
        else (let (r', error) = add_surface now output r in fail_on error r')
      else r

  unfoldable pub update_output : ℕ → Output → LockRuntime P → LockRuntime P
  update_output now output r = refresh_authentication_output P now (record r {
    surfaces = modify_first (λ s. s.output == output.id) (named output.name) r.surfaces;
  })

  abbrev forget_retirement : LockRuntime P → LockRuntime P
  forget_retirement r = record r {
    retiring_authentication = none;
    authentication_retirement = none;
    authentication_retirement_feedback = none;
  }

  unfoldable pub output_destroyed : ℕ → ℕ → LockRuntime P → LockRuntime P
  output_destroyed now output r =
      let r' =
        if optional_eq r.retiring_authentication (some output) then forget_retirement r else r in
      refresh_authentication_output P now
        (record r' { surfaces = keep_if (λ s. not (s.output == output)) r'.surfaces })

  accepts : Option AuthenticationRetirement → Bool
  accepts none = false
  accepts (some retirement) = accepts_presentation retirement

  unfoldable pub presented : ℕ → ℕ → LockRuntime P → LockRuntime P
  unfolding accepts
  presented now feedback r =
      if not (optional_eq r.authentication_retirement_feedback (some feedback))
        || not (accepts r.authentication_retirement)
      then r
      else refresh_authentication_output P now (forget_retirement r)

  unfoldable pub discarded : ℕ → ℕ → LockRuntime P → LockRuntime P
  discarded feedback surface r =
      if not (optional_eq r.authentication_retirement_feedback (some feedback))
      then r
      else record r {
        authentication_retirement_feedback = none;
        authentication_retirement = Option.map retirement_discarded r.authentication_retirement;
        surfaces =
            modify_first (λ s. s.lock_surface == surface)
              (λ s. record s { redraw = request_role_change s.redraw }) r.surfaces;
      }

  unfoldable pub give_input : Option Input → LockRuntime P → LockRuntime P × Bool
  give_input none r = (r, false)
  give_input (some i) r =
      let (changed, p) = P.input r.presentation i in (record r { presentation = p }, changed)

  -- `handle_key`, for a pressed or a repeated key.
  unfoldable pub handle_key : Keysym → Option Text → LockRuntime P → LockRuntime P
  unfolding key_input give_input
  handle_key keysym utf8 r =
      let (r', changed) = give_input (key_input keysym utf8) r in
      let (classified, kind) = classify_overlay_redraw P r' in
      if changed then redraw_all_surfaces P kind classified else r'
