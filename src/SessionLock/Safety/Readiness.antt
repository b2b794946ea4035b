-- ===== src/SessionLock/Safety/Readiness.antt =====
-- When the process says that the session is locked: on the compositor's confirmation only.
use genkan.Prelude.{
  ℕ, false, Option, none, List, [], ◌∷◌, ◌++◌, ◌≡◌, ◌≢◌, refl, ◌⊎◌, inl, inr, arith, Text, sym, ap,
  ◌∙◌, Option-cases,
}
use mathlib.Core.List.{append_assoc, append-nil}
use genkan.SessionLock.Frames.{Presentation}
use genkan.SessionLock.Lifecycle.{Identity, requesting, locked, update, authorize_unlock, new}
use genkan.SessionLock.Runtime.{
  Effect, reported, unlocked, Outside, LockRuntime, fail, apply, write_all_ready,
  redraw_all_surfaces, record_full_frame,
}
use genkan.SessionLock.Handlers.{Output, locked as locked_callback, lock_confirmation_action}
use genkan.SessionLock.Render.{Device}
use genkan.SessionLock.Loop.{round, spend_authorization, draw_round, reconcile_outputs}
use genkan.SessionLock.System.{Call, locks, rounds, initial, step, run}
use genkan.SessionLock.Safety.Invariant.{reports, IsSafe, step-IsSafe, run-IsSafe}
use genkan.SessionLock.Safety.Quiet.{Advances-step}
use genkan.SessionLock.Safety.Advance.{
  Advances, before_spending, Advances-before_spending, Advances-draw_round, Advances-fail,
}
use genkan.SessionLock.Safety.Untouched.{core-reconcile_outputs, Core}
use genkan.SessionLock.Safety.Release.{round_ends}

reports-append : (xs ys : List Effect) → reports (xs ++ ys) ≡ reports ys ++ reports xs
reports-append [] ys = sym (append-nil (reports ys))
reports-append (unlocked ∷ xs) ys = reports-append xs ys
reports-append (reported fd ∷ xs) ys =
    ap (λ (l : List ℕ). l ++ (fd ∷ [])) (reports-append xs ys)
    ∙ append_assoc (reports ys) (reports xs) (fd ∷ [])

-- What is written is a beginning of the list of descriptors, and all of it where no write fails.
pub write_all_ready-prefix :
    (write : ℕ → Option Text) (fds : List ℕ)
    → (rest : List ℕ) × (reports (write_all_ready write fds).0 ++ rest ≡ fds)
unfolding write_all_ready
write_all_ready-prefix write [] = ([], refl)
write_all_ready-prefix write (fd ∷ fds) =
    let (rest, e) = write_all_ready-prefix write fds in
    elim (Option-cases (write fd)) [
      | inl k ↦ (
        rest,
        rw (k, write_all_ready)
            (rw (reports-append (write_all_ready write fds).0 (reported fd ∷ [])) (ap (◌∷◌ fd) e)),
      )
      | inr (x, k) ↦ (fd ∷ fds, rw (k, write_all_ready))
    ]

pub write_all_ready_ok :
    (write : ℕ → Option Text) (fds : List ℕ)
    → ((fd : ℕ) → write fd ≡ none)
    → (reports (write_all_ready write fds).0 ≡ fds) × ((write_all_ready write fds).1 ≡ none)
unfolding write_all_ready
write_all_ready_ok write [] h = (refl, refl)
write_all_ready_ok write (fd ∷ fds) h =
    let (e, k) = write_all_ready_ok write fds h in
    (
      rw (h fd, write_all_ready)
          (rw (reports-append (write_all_ready write fds).0 (reported fd ∷ [])) (ap (◌∷◌ fd) e)),
      rw (h fd, write_all_ready) k,
    )

abbrev pub IsConfirmation : Call → Type 0
IsConfirmation (locks o) = Unit {0}
IsConfirmation _ = ⊥

module _ (P : Presentation) where
  spend-reports :
      (o : Outside) (r : LockRuntime P)
      → (reports (spend_authorization P o r).effects ≡ reports r.effects)
        × ((spend_authorization P o r).ready ≡ r.ready)
  unfolding spend_authorization authorize_unlock apply fail update
  spend-reports o r = ground arith

  abbrev SameReports : LockRuntime P → LockRuntime P → Type 0
  SameReports r s = (reports s.effects ≡ reports r.effects) × (s.ready ≡ r.ready)

  SameReports-of_Advances : (r s : LockRuntime P) → Advances P r s → SameReports r s
  SameReports-of_Advances r s a = (ap reports a.same_effects, a.same_ready)

  SameReports-trans : (r s t : LockRuntime P) → SameReports r s → SameReports s t → SameReports r t
  SameReports-trans r s t h k = (k.0 ∙ h.0, k.1 ∙ h.1)

  round-reports :
      (o : Outside) (d : ℕ → Device) (now : ℕ) (outputs : List Output) (r : LockRuntime P)
      → SameReports r (round P o d now outputs r)
  round-reports o d now outputs r =
      let start = before_spending P now outputs r in
      let spent = spend_authorization P o start in
      let reconciled = (reconcile_outputs P now outputs r).0 in
      let c = core-reconcile_outputs P now outputs r in
      let kept : SameReports r reconciled =
        (ap (λ (x : Core P.State). reports x.effects) c, ap (λ (x : Core P.State). x.ready) c) in
      let begun : SameReports r spent =
        SameReports-trans r start spent
          (SameReports-of_Advances r start (Advances-before_spending P now outputs r))
          (spend-reports o start) in
      round_ends P (SameReports r) o d now outputs r (refl, refl)
        (λ e.
          SameReports-trans r reconciled (fail P e reconciled) kept
            (SameReports-of_Advances reconciled _ (Advances-fail P e reconciled)))
        begun
        (λ x.
          SameReports-trans r spent (draw_round P d x spent) begun
            (SameReports-of_Advances spent _ (Advances-draw_round P d x spent)))

  -- The compositor's confirmation, when the lock was requested and nothing failed so far.
  locked_reports :
      (o : Outside) (r : LockRuntime P)
      → IsSafe P r
      → (SameReports r (locked_callback P o r))
        ⊎ ((r.state.lifecycle ≡ requesting)
            × (r.terminate ≡ false)
            × ((locked_callback P o r).ready ≡ [])
            × (reports (locked_callback P o r).effects
                ≡ reports (write_all_ready o.write_ready r.ready).0))
  unfolding locked_callback lock_confirmation_action update apply fail redraw_all_surfaces
      record_full_frame
  locked_reports o r h =
      ground (arith, reports-append (write_all_ready o.write_ready r.ready).0 r.effects)

  -- What is known of the descriptors between two calls.
  record IsTold (ready : List ℕ) (r : LockRuntime P) : Type 0 where
    safe : IsSafe P r
    waiting : r.state.lifecycle ≡ requesting → r.ready ≡ ready
    untold : List ℕ
    told : reports r.effects ++ untold ≡ ready

  locked_back :
      (o : Outside) (r : LockRuntime P)
      → (locked_callback P o r).state.lifecycle ≡ requesting
      → (r.state.lifecycle ≡ requesting) × ((locked_callback P o r).ready ≡ r.ready)
  unfolding locked_callback lock_confirmation_action update apply fail redraw_all_surfaces
      record_full_frame
  locked_back o r e = ground arith

  IsTold-locked :
      (ready : List ℕ) (o : Outside) (r : LockRuntime P)
      → IsTold ready r
      → IsSafe P (locked_callback P o r)
      → IsTold ready (locked_callback P o r)
  IsTold-locked ready o r h safe =
      let waits = λ (e : (locked_callback P o r).state.lifecycle ≡ requesting).
        (locked_back o r e).1 ∙ h.waiting (locked_back o r e).0 in
      elim (locked_reports o r h.safe) [
        | inl (same, kept) ↦ record {
          safe = safe;
          waiting = waits;
          untold = h.untold;
          told = ap (λ (l : List ℕ). l ++ h.untold) same ∙ h.told;
        }
        | inr (l, t, gone, written) ↦
            let (rest, e) = write_all_ready-prefix o.write_ready r.ready in
            record {
              safe = safe;
              waiting = waits;
              untold = rest;
              told = ap (λ (x : List ℕ). x ++ rest) written ∙ (e ∙ h.waiting l);
            }
      ]

  IsTold-same :
      (ready : List ℕ) (r s : LockRuntime P)
      → SameReports r s
      → IsSafe P s
      → (s.state.lifecycle ≡ requesting → r.state.lifecycle ≡ requesting)
      → IsTold ready r
      → IsTold ready s
  IsTold-same ready r s same safe back h = record {
    safe = safe;
    waiting = λ e. same.1 ∙ h.waiting (back e);
    untold = h.untold;
    told = ap (λ (l : List ℕ). l ++ h.untold) same.0 ∙ h.told;
  }

  spend-lifecycle :
      (o : Outside) (r : LockRuntime P)
      → (spend_authorization P o r).state.lifecycle ≡ requesting
      → r.state.lifecycle ≡ requesting
  unfolding spend_authorization authorize_unlock apply fail update
  spend-lifecycle o r = ground arith

  Advances-back :
      (r s : LockRuntime P)
      → Advances P r s
      → s.state.lifecycle ≡ requesting
      → r.state.lifecycle ≡ requesting
  Advances-back r s a e = ground arith

  round-back :
      (o : Outside) (d : ℕ → Device) (now : ℕ) (outputs : List Output) (r : LockRuntime P)
      → (round P o d now outputs r).state.lifecycle ≡ requesting
      → r.state.lifecycle ≡ requesting
  round-back o d now outputs r =
      let start = before_spending P now outputs r in
      let spent = spend_authorization P o start in
      let reconciled = (reconcile_outputs P now outputs r).0 in
      let kept : reconciled.state.lifecycle ≡ r.state.lifecycle =
        ap (λ (x : Core P.State). x.lifecycle) (core-reconcile_outputs P now outputs r) in
      let begun : spent.state.lifecycle ≡ requesting → r.state.lifecycle ≡ requesting = λ e.
        Advances-back r start (Advances-before_spending P now outputs r)
          (spend-lifecycle o start e) in
      round_ends P (λ s. s.state.lifecycle ≡ requesting → r.state.lifecycle ≡ requesting) o d now
        outputs r (λ e. e)
        (λ err e. sym kept ∙ Advances-back reconciled _ (Advances-fail P err reconciled) e) begun
        (λ x e. begun (Advances-back spent _ (Advances-draw_round P d x spent) e))

  IsTold-step :
      (ready : List ℕ) (r : LockRuntime P) (c : Call) → IsTold ready r → IsTold ready (step P r c)
  unfolding step
  IsTold-step ready r (locks o) h = IsTold-locked ready o r h (step-IsSafe P r (locks o) h.safe)
  IsTold-step ready r (rounds o d now outputs) h =
      IsTold-same ready r _ (round-reports o d now outputs r)
        (step-IsSafe P r (rounds o d now outputs) h.safe) (round-back o d now outputs r) h
  IsTold-step ready r c h =
      let a = Advances-step P r c tt in
      IsTold-same ready r (step P r c) (SameReports-of_Advances r _ a) (step-IsSafe P r c h.safe)
        (Advances-back r _ a) h

  IsTold-run :
      (ready : List ℕ) (r : LockRuntime P) (cs : List Call)
      → IsTold ready r
      → IsTold ready (run P r cs)
  IsTold-run ready r [] h = h
  IsTold-run ready r (c ∷ cs) h = IsTold-run ready (step P r c) cs (IsTold-step ready r c h)

  initial-IsTold :
      (i : Identity) (p : P.State) (o : Option Text) (ready : List ℕ)
      → IsTold ready (initial P i p o ready)
  unfolding initial new
  initial-IsTold i p o ready = record {
    safe = run-IsSafe P i p o ready [];
    waiting = λ e. refl;
    untold = ready;
    told = refl;
  }

  -- In every history the descriptors that were told of readiness are a beginning of those that were
  -- given, in their order: none is told twice.
  pub reports-prefix :
      (i : Identity) (p : P.State) (o : Option Text) (ready : List ℕ) (cs : List Call)
      → (untold : List ℕ) × (reports (run P (initial P i p o ready) cs).effects ++ untold ≡ ready)
  reports-prefix i p o ready cs =
      let h = IsTold-run ready _ cs (initial-IsTold i p o ready) in (h.untold, h.told)

  -- A call tells a descriptor only if it is the compositor's confirmation, the lock is requested
  -- and not confirmed yet, and the process has not ended.
  pub report_needs-IsConfirmation :
      (r : LockRuntime P) (c : Call)
      → IsSafe P r
      → reports (step P r c).effects ≢ reports r.effects
      → IsConfirmation c × (r.state.lifecycle ≡ requesting) × (r.terminate ≡ false)
  unfolding step
  report_needs-IsConfirmation r (locks o) h n = elim (locked_reports o r h) [
    | inl same ↦ absurd (n same.0)
    | inr told ↦ (tt, told.0, told.1)
  ]
  report_needs-IsConfirmation r (rounds o d now outputs) h n =
      absurd (n (round-reports o d now outputs r).0)
  report_needs-IsConfirmation r c h n =
      absurd (n (ap reports (Advances-step P r c tt).same_effects))

  -- The confirmation of a requested lock tells every descriptor, in order, where no write fails,
  -- and the process goes on with a confirmed lock.
  pub confirmation_reports :
      (o : Outside) (r : LockRuntime P)
      → IsSafe P r
      → r.state.lifecycle ≡ requesting
      → r.terminate ≡ false
      → ((fd : ℕ) → o.write_ready fd ≡ none)
      → let s = step P r (locks o) in
        (reports s.effects ≡ r.ready) × (s.state.lifecycle ≡ locked) × (s.terminate ≡ false)
  unfolding step locked_callback lock_confirmation_action update apply fail redraw_all_surfaces
      record_full_frame
  confirmation_reports o r h l t w = ground (
    arith,
    reports-append (write_all_ready o.write_ready r.ready).0 r.effects,
    write_all_ready_ok o.write_ready r.ready w,
  )
