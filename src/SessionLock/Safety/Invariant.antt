-- ===== src/SessionLock/Safety/Invariant.antt =====
-- What holds of the lock in every history of calls.
use genkan.Prelude.{
  ℕ, suc, ◌+◌, ◌≤◌, ◌<◌, Bool, true, false, Option, none, some, List, [], ◌∷◌, ◌++◌, ◌≡◌, refl, ◌⊎◌,
  arith, Text, if◌then◌else◌,
}
use genkan.SessionLock.Frames.{Presentation}
use genkan.SessionLock.Lifecycle.{
  Lifecycle, Identity, requesting, locked, aborted, unlocking, update, authorize_unlock, new,
}
use genkan.SessionLock.Runtime.{
  Error, Effect, reported, unlocked, Outside, LockRuntime, fail, apply, write_all_ready,
  redraw_all_surfaces, record_full_frame, expire_authentication_retirement,
}
use genkan.SessionLock.Handlers.{Output, locked as locked_callback, lock_confirmation_action}
use genkan.SessionLock.Render.{Device}
use genkan.SessionLock.Loop.{
  round, spend_authorization, draw_round, reconcile_outputs, refresh_priority,
}
use genkan.SessionLock.System.{Call, locks, rounds, initial, step, run}
use genkan.SessionLock.Safety.Untouched.{core-reconcile_outputs}
use genkan.SessionLock.Safety.Quiet.{Advances-step}
use genkan.SessionLock.Safety.Advance.{
  Advances, before_spending, Advances-before_spending, Advances-draw_round, Advances-fail,
  Advances-of_core,
}

abbrev pub unlocks : List Effect → ℕ
unlocks [] = 0
unlocks (unlocked ∷ es) = suc (unlocks es)
unlocks (reported _ ∷ es) = unlocks es

-- The descriptors that were told that the session is locked, in the order of telling.
abbrev pub reports : List Effect → List ℕ
reports [] = []
reports (unlocked ∷ es) = reports es
reports (reported fd ∷ es) = reports es ++ (fd ∷ [])

abbrev pub IsRunning : Lifecycle → Type 0
IsRunning l = (l ≡ requesting) ⊎ (l ≡ locked)

pub unlocks-append : (xs ys : List Effect) → unlocks (xs ++ ys) ≡ unlocks xs + unlocks ys
unlocks-append [] ys = omega arith
unlocks-append (unlocked ∷ xs) ys = omega (arith, unlocks-append xs ys)
unlocks-append (reported fd ∷ xs) ys = unlocks-append xs ys

-- Telling the descriptors releases nothing.
pub unlocks-write_all_ready :
    (write : ℕ → Option Text) (fds : List ℕ) → unlocks (write_all_ready write fds).0 ≡ 0
unfolding write_all_ready
unlocks-write_all_ready write [] = refl
unlocks-write_all_ready write (fd ∷ fds) = ground (
  arith,
  unlocks-write_all_ready write fds,
  unlocks-append (write_all_ready write fds).0 (reported fd ∷ []),
)

module _ (P : Presentation) where
  pub record IsSafe (r : LockRuntime P) : Type 0 where
    pub untold : r.state.lifecycle ≡ requesting → r.effects ≡ []
    pub held : unlocks r.effects ≡ 0 → r.session_lock ≡ true
    pub released : 0 < unlocks r.effects → (r.session_lock ≡ false) × (r.terminate ≡ true)
    pub once : unlocks r.effects ≤ 1
    pub opened :
        0 < unlocks r.effects → (r.state.lifecycle ≡ unlocking) ⊎ (r.state.lifecycle ≡ aborted)
    pub alive : r.terminate ≡ false → IsRunning r.state.lifecycle × (r.failure ≡ none)
    pub locked_alive : r.state.lifecycle ≡ locked → unlocks r.effects ≡ 0

  IsSafe-Advances : (r r' : LockRuntime P) → Advances P r r' → IsSafe r → IsSafe r'
  IsSafe-Advances r r' a h = ground arith

  initial-IsSafe :
      (i : Identity) (p : P.State) (o : Option Text) (ready : List ℕ)
      → IsSafe (initial P i p o ready)
  unfolding initial new
  initial-IsSafe i p o ready = ground arith

  spend-IsSafe : (o : Outside) (r : LockRuntime P) → IsSafe r → IsSafe (spend_authorization P o r)
  unfolding spend_authorization authorize_unlock apply fail update
  spend-IsSafe o r h = ground arith

  locked-IsSafe : (o : Outside) (r : LockRuntime P) → IsSafe r → IsSafe (locked_callback P o r)
  unfolding locked_callback lock_confirmation_action update apply fail redraw_all_surfaces
      record_full_frame
  locked-IsSafe o r h = ground (
    arith,
    unlocks-write_all_ready o.write_ready r.ready,
    unlocks-append (write_all_ready o.write_ready r.ready).0 r.effects,
  )

  either-IsSafe :
      (b : Bool) (x y : LockRuntime P) → IsSafe x → IsSafe y → IsSafe (if b then x else y)
  either-IsSafe true x y h k = h
  either-IsSafe false x y h k = k

  or_fail-IsSafe :
      (e : Option Error) (x y : LockRuntime P)
      → IsSafe x
      → IsSafe y
      → IsSafe (elim e [ some err ↦ fail P err x | none ↦ y ])
  or_fail-IsSafe none x y h k = k
  or_fail-IsSafe (some e) x y h k = IsSafe-Advances x (fail P e x) (Advances-fail P e x) h

  round-IsSafe :
      (o : Outside) (d : ℕ → Device) (now : ℕ) (outputs : List Output) (r : LockRuntime P)
      → IsSafe r
      → IsSafe (round P o d now outputs r)
  unfolding round before_spending
  round-IsSafe o d now outputs r h =
      let reconciled = reconcile_outputs P now outputs r in
      let start = before_spending P now outputs r in
      let spent = spend_authorization P o start in
      let priority = (refresh_priority P (expire_authentication_retirement P now reconciled.0)).1 in
      let spent_safe =
        spend-IsSafe o start
          (IsSafe-Advances r start (Advances-before_spending P now outputs r) h) in
      either-IsSafe r.terminate r _ h (
        or_fail-IsSafe reconciled.1 reconciled.0 _
          (IsSafe-Advances r reconciled.0
            (Advances-of_core P r reconciled.0 (core-reconcile_outputs P now outputs r)) h)
          (either-IsSafe spent.terminate spent (draw_round P d priority spent) spent_safe
            (IsSafe-Advances spent _ (Advances-draw_round P d priority spent) spent_safe)))

  pub step-IsSafe : (r : LockRuntime P) (c : Call) → IsSafe r → IsSafe (step P r c)
  unfolding step
  step-IsSafe r (locks o) h = locked-IsSafe o r h
  step-IsSafe r (rounds o d now outputs) h = round-IsSafe o d now outputs r h
  step-IsSafe r c h = IsSafe-Advances r _ (Advances-step P r c tt) h

  pub run-IsSafe_of : (r : LockRuntime P) (cs : List Call) → IsSafe r → IsSafe (run P r cs)
  run-IsSafe_of r [] h = h
  run-IsSafe_of r (c ∷ cs) h = run-IsSafe_of (step P r c) cs (step-IsSafe r c h)

  -- In every history of calls from the requested lock on: nothing is told or released while the
  -- lock is only requested; the lock object is held until the unlock request; there is at most one
  -- unlock request, after which the process ends with the lifecycle `unlocking` or `aborted`; and a
  -- process that goes on has a requested or a confirmed lock and no failure.
  pub run-IsSafe :
      (i : Identity) (p : P.State) (o : Option Text) (ready : List ℕ) (cs : List Call)
      → IsSafe (run P (initial P i p o ready) cs)
  run-IsSafe i p o ready cs = run-IsSafe_of _ cs (initial-IsSafe i p o ready)
