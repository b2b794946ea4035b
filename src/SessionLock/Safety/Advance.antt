-- ===== src/SessionLock/Safety/Advance.antt =====
-- Steps that do not touch the lock object, the readiness descriptors or the record of what was done
-- outside: they leave the lifecycle alone, or abort it.
use genkan.Prelude.{
  ℕ, Bool, true, false, Option, none, some, List, ◌≡◌, refl, ◌⊎◌, arith, is_some, Text, ap, ◌∙◌,
}
use genkan.SessionLock.Frames.{Presentation, Refresh}
use genkan.SessionLock.Lifecycle.{aborted, update}
use genkan.SessionLock.Redraw.{OverlayProgressSummary, should_poll_deferred}
use genkan.SessionLock.Runtime.{
  Error, LockRuntime, fail, apply_refresh, expire_authentication_retirement,
  refresh_authentication_output, redraw_all_surfaces, classify_overlay_redraw,
}
use genkan.SessionLock.Handlers.{Output, Keysym, configure, new_output, add_surface, handle_key}
use genkan.SessionLock.Render.{Device}
use genkan.SessionLock.Loop.{
  commit_partial_overlays, record_failure, refresh_priority, refresh_presentation, finish_round,
  poll, draw_round, reconcile_outputs,
}
use genkan.SessionLock.Safety.Untouched.{
  Core, core, core-expire, core-apply_refresh, core-commit_partial_overlays, core-maintain_surfaces,
  core-reconcile_outputs,
}

module _ (P : Presentation) where
  pub record Advances (r r' : LockRuntime P) : Type 0 where
    pub same_lock : r'.session_lock ≡ r.session_lock
    pub same_ready : r'.ready ≡ r.ready
    pub same_effects : r'.effects ≡ r.effects
    pub lifecycle :
        ((r'.state.lifecycle ≡ r.state.lifecycle)
          × (r'.terminate ≡ r.terminate)
          × (r'.failure ≡ r.failure))
        ⊎ ((r'.state.lifecycle ≡ aborted) × (r'.terminate ≡ true) × (is_some r'.failure ≡ true))

  pub Advances-of_core : (r r' : LockRuntime P) → core P r' ≡ core P r → Advances r r'
  Advances-of_core r r' h = ground arith

  pub Advances-trans : (r s t : LockRuntime P) → Advances r s → Advances s t → Advances r t
  Advances-trans r s t h k = ground arith

  pub Advances-fail : (e : Error) (r : LockRuntime P) → Advances r (fail P e r)
  unfolding fail update
  Advances-fail e r = ground arith

  Advances-record_failure : (x : Refresh) (r : LockRuntime P) → Advances r (record_failure P x r)
  unfolding record_failure update
  Advances-record_failure Refresh.failed r = ground arith
  Advances-record_failure Refresh.frame r = ground arith
  Advances-record_failure Refresh.overlay r = ground arith
  Advances-record_failure Refresh.unchanged r = ground arith

  pub presentation-record_failure :
      (x : Refresh) (r : LockRuntime P) → (record_failure P x r).presentation ≡ r.presentation
  unfolding record_failure
  presentation-record_failure Refresh.failed r = refl
  presentation-record_failure Refresh.frame r = refl
  presentation-record_failure Refresh.overlay r = refl
  presentation-record_failure Refresh.unchanged r = refl

  pub Advances-refresh_priority : (r : LockRuntime P) → Advances r (refresh_priority P r).0
  unfolding refresh_priority
  Advances-refresh_priority r =
      let p = P.receive_latest r.presentation in
      ground (arith, Advances-record_failure p.0 (record r { presentation = p.1 }))

  Advances-poll : (b : Bool) (r : LockRuntime P) → Advances r (poll P b r)
  unfolding poll refresh_presentation
  Advances-poll false r = ground arith
  Advances-poll true r =
      let p = P.receive_deferred r.presentation in
      let s : LockRuntime P = record r { presentation = p.1 } in
      ground
        (arith, Advances-record_failure p.0 s, core-apply_refresh P p.0 (record_failure P p.0 s))

  -- A step whose error, if it has one, ends the loop.
  pub Advances-or_fail :
      (e : Option Error) (r s t : LockRuntime P)
      → Advances r s
      → Advances r t
      → Advances r (elim e [ some x ↦ fail P x s | none ↦ t ])
  Advances-or_fail none r s t h k = k
  Advances-or_fail (some x) r s t h k = Advances-trans r s _ h (Advances-fail x s)

  Advances-finish_round :
      (d : ℕ → Device) (b : Bool) (s : OverlayProgressSummary) (r : LockRuntime P)
      → Advances r (finish_round P d b s r)
  unfolding finish_round
  Advances-finish_round d b s r =
      let rendered = Advances-of_core r _ (core-maintain_surfaces P d _ r) in
      Advances-or_fail _ r _ _ rendered rendered

  pub Advances-draw_round :
      (d : ℕ → Device) (x : Refresh) (r : LockRuntime P) → Advances r (draw_round P d x r)
  unfolding draw_round
  Advances-draw_round d x r =
      let refreshed = apply_refresh P x r in
      let committed = commit_partial_overlays P d refreshed in
      let polls = should_poll_deferred x committed.1 in
      let polled = poll P polls committed.0 in
      let start : Advances r committed.0 =
        Advances-of_core r committed.0
          (core-commit_partial_overlays P d refreshed ∙ core-apply_refresh P x r) in
      Advances-or_fail committed.2 r committed.0 (finish_round P d polls committed.1 polled) start (
        Advances-trans r committed.0 _ start (
          Advances-trans committed.0 polled _ (Advances-poll polls committed.0)
            (Advances-finish_round d polls committed.1 polled)))

  -- A round is its drawing after the spending of the authorization, unless an output failed.
  unfoldable pub before_spending : ℕ → List Output → LockRuntime P → LockRuntime P
  before_spending now outputs r =
      (refresh_priority P
        (expire_authentication_retirement P now (reconcile_outputs P now outputs r).0)).0

  pub Advances-before_spending :
      (now : ℕ) (outputs : List Output) (r : LockRuntime P)
      → Advances r (before_spending now outputs r)
  unfolding before_spending
  Advances-before_spending now outputs r =
      let reconciled = (reconcile_outputs P now outputs r).0 in
      let expired = expire_authentication_retirement P now reconciled in
      Advances-trans r expired _
        (Advances-of_core r expired
          (core-expire P now reconciled ∙ core-reconcile_outputs P now outputs r))
        (Advances-refresh_priority expired)

  -- The presentation is asked for its authorization right after its latest changes were received.
  pub presentation-before_spending :
      (now : ℕ) (outputs : List Output) (r : LockRuntime P)
      → (before_spending now outputs r).presentation ≡ (P.receive_latest r.presentation).1
  unfolding before_spending refresh_priority
  presentation-before_spending now outputs r =
      let reconciled = (reconcile_outputs P now outputs r).0 in
      presentation-record_failure _ _
      ∙ ap (λ (c : Core P.State). (P.receive_latest c.presentation).1)
          (core-expire P now reconciled ∙ core-reconcile_outputs P now outputs r)

  pub Advances-handle_key :
      (k : Keysym) (t : Option Text) (r : LockRuntime P) → Advances r (handle_key P k t r)
  unfolding handle_key classify_overlay_redraw redraw_all_surfaces
  Advances-handle_key k t r = ground arith

  pub Advances-configure :
      (now surface : ℕ) (size : ℕ × ℕ) (r : LockRuntime P)
      → Advances r (configure P now surface size r)
  unfolding configure refresh_authentication_output fail update
  Advances-configure now surface size r = ground arith

  pub Advances-new_output :
      (now : ℕ) (o : Output) (r : LockRuntime P) → Advances r (new_output P now o r)
  unfolding new_output add_surface refresh_authentication_output fail update
  Advances-new_output now o r = ground arith
