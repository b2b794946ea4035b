-- ===== src/SessionLock/Safety/Kept.antt =====
-- What the calls of the lock runtime in crates/session-lock/src/runtime.rs keep true of the
-- presentation.
use genkan.Prelude.{
  ℕ, Bool, true, false, Option, none, some, List, [], ◌∷◌, Text, ◌≡◌, refl, sym, ap, ◌∙◌, subst,
  ◌⊎◌, inl, inr, arith,
}
use genkan.SessionLock.Frames.{Presentation, Refresh, Input}
use genkan.SessionLock.Lifecycle.{update, authorize_unlock}
use genkan.SessionLock.Runtime.{
  Error, Outside, LockRuntime, fail, apply, apply_refresh, redraw_all_surfaces, record_full_frame,
  refresh_authentication_output, classify_overlay_redraw,
}
use genkan.SessionLock.Handlers.{
  Output, Keysym, locked, lock_confirmation_action, finished, configure, add_surface, new_output,
  handle_key, give_input, key_input,
}
use genkan.SessionLock.Redraw.{
  should_poll_deferred, should_allow_overlay_full, OverlayProgressSummary,
}
use genkan.SessionLock.Render.{Device}
use genkan.SessionLock.Loop.{
  round, spend_authorization, draw_round, finish_round, poll, refresh_presentation, record_failure,
  reconcile_outputs, commit_partial_overlays, maintain_surfaces,
}
use genkan.SessionLock.System.{
  Call, locks, finishes, configures, rescales, frames, adds_output, updates_output, removes_output,
  presents, discards, keys, releases, dispatch_fails, rounds, step, run,
}
use genkan.SessionLock.Safety.Untouched.{
  Core, core-scale_factor_changed, core-frame_callback, core-update_output, core-output_destroyed,
  core-presented, core-discarded, core-commit_partial_overlays, core-maintain_surfaces,
  core-apply_refresh, core-reconcile_outputs,
}
use genkan.SessionLock.Safety.Advance.{
  before_spending, presentation-before_spending, presentation-record_failure,
}
use genkan.SessionLock.Safety.Release.{round_ends}

module _ (P : Presentation) where
  shown : {c d : Core P.State} → c ≡ d → c.presentation ≡ d.presentation
  shown h = ap (λ (c : Core P.State). c.presentation) h

  presentation-fail : (e : Error) (r : LockRuntime P) → (fail P e r).presentation ≡ r.presentation
  unfolding fail
  presentation-fail e r = refl

  presentation-finished :
      (o : Outside) (r : LockRuntime P) → (finished P o r).presentation ≡ r.presentation
  unfolding finished update apply fail
  presentation-finished o r = ground arith

  presentation-configure :
      (now surface : ℕ) (size : ℕ × ℕ) (r : LockRuntime P)
      → (configure P now surface size r).presentation ≡ r.presentation
  unfolding configure refresh_authentication_output fail update
  presentation-configure now surface size r = ground arith

  presentation-new_output :
      (now : ℕ) (o : Output) (r : LockRuntime P)
      → (new_output P now o r).presentation ≡ r.presentation
  unfolding new_output add_surface refresh_authentication_output fail update
  presentation-new_output now o r = ground arith

  presentation-spend :
      (o : Outside) (r : LockRuntime P)
      → (spend_authorization P o r).presentation ≡ (P.take_authorization r.presentation).1
  unfolding spend_authorization authorize_unlock apply fail update
  presentation-spend o r = ground arith

  presentation-locked :
      (o : Outside) (r : LockRuntime P)
      → ((locked P o r).presentation ≡ r.presentation)
        ⊎ ((locked P o r).presentation ≡ P.lock_confirmed r.presentation)
  unfolding locked lock_confirmation_action update apply fail redraw_all_surfaces record_full_frame
  presentation-locked o r = ground arith

  presentation-handle_key :
      (k : Keysym) (t : Option Text) (r : LockRuntime P)
      → (handle_key P k t r).presentation ≡ (give_input P (key_input k t) r).0.presentation
  unfolding handle_key classify_overlay_redraw redraw_all_surfaces
  presentation-handle_key k t r = ground arith

  presentation-poll :
      (b : Bool) (r : LockRuntime P)
      → ((poll P b r).presentation ≡ r.presentation)
        ⊎ ((poll P b r).presentation ≡ (P.receive_deferred r.presentation).1)
  unfolding poll refresh_presentation
  presentation-poll false r = inl refl
  presentation-poll true r =
      let p = P.receive_deferred r.presentation in
      let s : LockRuntime P = record r { presentation = p.1 } in
      inr (
        shown (core-apply_refresh P p.0 (record_failure P p.0 s))
        ∙ presentation-record_failure P p.0 s)

  -- A property of the presentation that each of its methods keeps, where the authorization is taken
  -- right after the latest changes were received.
  pub record IsKept (I : P.State → Type 0) : Type 0 where
    pub deferred : (p : P.State) → I p → I (P.receive_deferred p).1
    pub confirmed : (p : P.State) → I p → I (P.lock_confirmed p)
    pub typed : (p : P.State) (i : Input) → I p → I (P.input p i).1
    pub taken : (p : P.State) → I p → I (P.take_authorization (P.receive_latest p).1).1

  module _ (I : P.State → Type 0) (kept : IsKept I) where
    same : {x y : P.State} → y ≡ x → I x → I y
    same e h = subst I (sym e) h

    kept-give_input :
        (i : Option Input) (r : LockRuntime P)
        → I r.presentation
        → I (give_input P i r).0.presentation
    unfolding give_input
    kept-give_input none r h = h
    kept-give_input (some i) r h = kept.typed r.presentation i h

    kept-locked :
        (o : Outside) (r : LockRuntime P) → I r.presentation → I (locked P o r).presentation
    kept-locked o r h = elim (presentation-locked o r) [
      | inl e ↦ subst I (sym e) h
      | inr e ↦ subst I (sym e) (kept.confirmed r.presentation h)
    ]

    kept-poll : (b : Bool) (r : LockRuntime P) → I r.presentation → I (poll P b r).presentation
    kept-poll b r h = elim (presentation-poll b r) [
      | inl e ↦ subst I (sym e) h
      | inr e ↦ subst I (sym e) (kept.deferred r.presentation h)
    ]

    kept-or_fail :
        (e : Option Error) (s t : LockRuntime P)
        → I s.presentation
        → I t.presentation
        → I (elim e as (λ x. LockRuntime P) [ some x ↦ fail P x s | none ↦ t ]).presentation
    kept-or_fail none s t h k = k
    kept-or_fail (some x) s t h k = same (presentation-fail x s) h

    kept-finish_round :
        (d : ℕ → Device) (b : Bool) (s : OverlayProgressSummary) (r : LockRuntime P)
        → I r.presentation
        → I (finish_round P d b s r).presentation
    unfolding finish_round
    kept-finish_round d b s r h =
        let rendered : I (maintain_surfaces P d (should_allow_overlay_full b s) r).0.presentation =
          same (shown (core-maintain_surfaces P d (should_allow_overlay_full b s) r)) h in
        kept-or_fail (maintain_surfaces P d (should_allow_overlay_full b s) r).1
          (maintain_surfaces P d (should_allow_overlay_full b s) r).0
          (maintain_surfaces P d (should_allow_overlay_full b s) r).0 rendered rendered

    kept-draw_round :
        (d : ℕ → Device) (x : Refresh) (r : LockRuntime P)
        → I r.presentation
        → I (draw_round P d x r).presentation
    unfolding draw_round
    kept-draw_round d x r h =
        let refreshed = apply_refresh P x r in
        let committed = commit_partial_overlays P d refreshed in
        let polls = should_poll_deferred x committed.1 in
        let polled = poll P polls committed.0 in
        let start : I committed.0.presentation =
          same (shown (core-commit_partial_overlays P d refreshed ∙ core-apply_refresh P x r)) h in
        kept-or_fail committed.2 committed.0 (finish_round P d polls committed.1 polled) start
          (kept-finish_round d polls committed.1 polled (kept-poll polls committed.0 start))

    kept-round :
        (o : Outside) (d : ℕ → Device) (now : ℕ) (outputs : List Output) (r : LockRuntime P)
        → I r.presentation
        → I (round P o d now outputs r).presentation
    kept-round o d now outputs r h =
        let reconciled = (reconcile_outputs P now outputs r).0 in
        let start = before_spending P now outputs r in
        let spent =
          subst I
            (sym (
              presentation-spend o start
              ∙ ap (λ (p : P.State). (P.take_authorization p).1)
                  (presentation-before_spending P now outputs r)))
            (kept.taken r.presentation h) in
        round_ends P (λ (s : LockRuntime P). I s.presentation) o d now outputs r h
          (λ e.
            same (presentation-fail e reconciled ∙ shown (core-reconcile_outputs P now outputs r))
              h)
          spent (λ x. kept-draw_round d x (spend_authorization P o start) spent)

    kept-step : (r : LockRuntime P) (c : Call) → I r.presentation → I (step P r c).presentation
    unfolding step
    kept-step r (locks o) h = kept-locked o r h
    kept-step r (rounds o d now outputs) h = kept-round o d now outputs r h
    kept-step r (finishes o) h = same (presentation-finished o r) h
    kept-step r (dispatch_fails e) h = same (presentation-fail e r) h
    kept-step r (configures now s size) h = same (presentation-configure now s size r) h
    kept-step r (adds_output now o) h = same (presentation-new_output now o r) h
    kept-step r (keys k t) h =
        subst I (sym (presentation-handle_key k t r)) (kept-give_input (key_input k t) r h)
    kept-step r (rescales s scale) h = same (shown (core-scale_factor_changed P s scale r)) h
    kept-step r (frames s) h = same (shown (core-frame_callback P s r)) h
    kept-step r (updates_output now o) h = same (shown (core-update_output P now o r)) h
    kept-step r (removes_output now o) h = same (shown (core-output_destroyed P now o r)) h
    kept-step r (presents now f) h = same (shown (core-presented P now f r)) h
    kept-step r (discards f s) h = same (shown (core-discarded P f s r)) h
    kept-step r (releases s i) h = h

    pub kept-run :
        (cs : List Call) (r : LockRuntime P) → I r.presentation → I (run P r cs).presentation
    kept-run [] r h = h
    kept-run (c ∷ cs) r h = kept-run cs (step P r c) (kept-step r c h)
