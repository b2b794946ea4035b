-- ===== src/SessionLock/Safety/Release.antt =====
-- When the lock is released: in a round in which the presentation grants its authorization, and
-- then without fail.
use genkan.Prelude.{
  ℕ, Bool, true, false, Option, none, some, List, [], ◌∷◌, ◌≡◌, ◌≢◌, refl, ◌⊎◌, inl, inr, arith,
  sym, ap, ◌∙◌, if◌then◌else◌,
}
use genkan.SessionLock.Frames.{Presentation, Refresh}
use genkan.SessionLock.Lifecycle.{locked, update, authorize_unlock}
use genkan.SessionLock.Runtime.{
  Error, unlocked, Outside, LockRuntime, fail, apply, write_all_ready, redraw_all_surfaces,
  record_full_frame,
}
use genkan.SessionLock.Handlers.{
  Output, locked as locked_callback, lock_confirmation_action, add_surface,
}
use genkan.SessionLock.Render.{Device}
use genkan.SessionLock.Loop.{
  round, spend_authorization, draw_round, reconcile_outputs, refresh_priority, record_failure,
  add_surfaces,
}
use genkan.SessionLock.System.{Call, locks, rounds, step}
use genkan.SessionLock.Safety.Untouched.{
  Core, core, core-reconcile_outputs, core-add_surface, core-expire,
}
use genkan.SessionLock.Safety.Quiet.{Advances-step}
use genkan.SessionLock.Safety.Advance.{
  before_spending, Advances-before_spending, Advances-draw_round, Advances-fail,
  presentation-before_spending,
}
use genkan.SessionLock.Safety.Invariant.{unlocks, unlocks-append, unlocks-write_all_ready, IsSafe}

abbrev pub IsRound : Call → Type 0
IsRound (rounds o d now outputs) = Unit {0}
IsRound _ = ⊥

module _ (P : Presentation) where
  -- What the presentation answers when it is asked in the next round.
  abbrev pub grants : LockRuntime P → Bool
  grants r = (P.take_authorization (P.receive_latest r.presentation).1).0

  -- The four ways in which a round can end.
  pub round_ends :
      (Q : LockRuntime P → Type 0) (o : Outside) (d : ℕ → Device) (now : ℕ) (outputs : List Output)
      (r : LockRuntime P)
      → Q r
      → ((e : Error) → Q (fail P e (reconcile_outputs P now outputs r).0))
      → Q (spend_authorization P o (before_spending P now outputs r))
      → ((x : Refresh)
          → Q (draw_round P d x (spend_authorization P o (before_spending P now outputs r))))
      → Q (round P o d now outputs r)
  unfolding round before_spending
  round_ends Q o d now outputs r stopped failed spent drawn =
      pick r.terminate r _ stopped
        (pick_error (reconcile_outputs P now outputs r).1 _ _ failed (pick _ _ _ spent (drawn _)))
    where
      pick : (b : Bool) (x y : LockRuntime P) → Q x → Q y → Q (if b then x else y)
      pick true x y h k = h
      pick false x y h k = k

      pick_error :
          (e : Option Error) (x y : LockRuntime P)
          → ((err : Error) → Q (fail P err x))
          → Q y
          → Q (elim e [ some err ↦ fail P err x | none ↦ y ])
      pick_error none x y h k = k
      pick_error (some e) x y h k = h e

  spend_cases :
      (o : Outside) (r : LockRuntime P)
      → ((spend_authorization P o r).effects ≡ r.effects)
        ⊎ ((r.state.lifecycle ≡ locked) × ((P.take_authorization r.presentation).0 ≡ true))
  unfolding spend_authorization authorize_unlock apply fail update
  spend_cases o r = ground arith

  locked-unlocks :
      (o : Outside) (r : LockRuntime P)
      → unlocks (locked_callback P o r).effects ≡ unlocks r.effects
  unfolding locked_callback lock_confirmation_action update apply fail redraw_all_surfaces
      record_full_frame
  locked-unlocks o r = ground (
    arith,
    unlocks-write_all_ready o.write_ready r.ready,
    unlocks-append (write_all_ready o.write_ready r.ready).0 r.effects,
  )

  effects_of_core : (r s : LockRuntime P) → core P s ≡ core P r → s.effects ≡ r.effects
  effects_of_core r s h = ap (λ (c : Core P.State). c.effects) h

  round-effects :
      (o : Outside) (d : ℕ → Device) (now : ℕ) (outputs : List Output) (r : LockRuntime P)
      → ((round P o d now outputs r).effects ≡ r.effects)
        ⊎ ((r.state.lifecycle ≡ locked) × (grants r ≡ true))
  round-effects o d now outputs r =
      let start = before_spending P now outputs r in
      let a = Advances-before_spending P now outputs r in
      let spent = spend_authorization P o start in
      let same = presentation-before_spending P now outputs r in
      elim (spend_cases o start) [
        | inr (l, g) ↦
            inr (ground arith, ap (λ (p : P.State). (P.take_authorization p).0) (sym same) ∙ g)
        | inl e ↦ inl (
            round_ends (λ s. s.effects ≡ r.effects) o d now outputs r refl
              (λ err.
                (Advances-fail P err (reconcile_outputs P now outputs r).0).same_effects
                ∙ effects_of_core r (reconcile_outputs P now outputs r).0
                    (core-reconcile_outputs P now outputs r))
              (e ∙ a.same_effects)
              (λ x. (Advances-draw_round P d x spent).same_effects ∙ (e ∙ a.same_effects)))
      ]

  -- A call changes the number of unlock requests only if it is a round of the loop, the lock is
  -- confirmed before it, and the presentation grants its authorization in it.
  pub unlock_needs_authorization :
      (r : LockRuntime P) (c : Call)
      → unlocks (step P r c).effects ≢ unlocks r.effects
      → IsRound c × (r.state.lifecycle ≡ locked) × (grants r ≡ true)
  unfolding step
  unlock_needs_authorization r (rounds o d now outputs) n = elim (round-effects o d now outputs r) [
    | inl e ↦ absurd (n (ap unlocks e))
    | inr (l, g) ↦ (tt, l, g)
  ]
  unlock_needs_authorization r (locks o) n = absurd (n (locked-unlocks o r))
  unlock_needs_authorization r c n = absurd (n (ap unlocks (Advances-step P r c tt).same_effects))

  add_surface_ok :
      (now : ℕ) (o : Output) (r : LockRuntime P)
      → r.session_lock ≡ true
      → (add_surface P now o r).1 ≡ none
  unfolding add_surface
  add_surface_ok now o r h = ground arith

  add_surfaces_ok :
      (now : ℕ) (os : List Output) (r : LockRuntime P)
      → r.session_lock ≡ true
      → (add_surfaces P now os r).1 ≡ none
  unfolding add_surfaces
  add_surfaces_ok now [] r h = refl
  add_surfaces_ok now (o ∷ os) r h =
      let r' = (add_surface P now o r).0 in
      let kept : r'.session_lock ≡ true =
        ap (λ (c : Core P.State). c.session_lock) (core-add_surface P now o r) ∙ h in
      ground (arith, add_surface_ok now o r h, add_surfaces_ok now os r' kept)

  reconcile_ok :
      (now : ℕ) (os : List Output) (r : LockRuntime P)
      → r.session_lock ≡ true
      → (reconcile_outputs P now os r).1 ≡ none
  unfolding reconcile_outputs
  reconcile_ok now os r h = ground (arith, add_surfaces_ok now os r h)

  lifecycle-record_failure :
      (x : Refresh) (r : LockRuntime P) → (record_failure P x r).state.lifecycle ≡ r.state.lifecycle
  unfolding record_failure update
  lifecycle-record_failure Refresh.failed r = ground arith
  lifecycle-record_failure Refresh.frame r = refl
  lifecycle-record_failure Refresh.overlay r = refl
  lifecycle-record_failure Refresh.unchanged r = refl

  lifecycle-before_spending :
      (now : ℕ) (outputs : List Output) (r : LockRuntime P)
      → (before_spending P now outputs r).state.lifecycle ≡ r.state.lifecycle
  unfolding before_spending refresh_priority
  lifecycle-before_spending now outputs r =
      let reconciled = (reconcile_outputs P now outputs r).0 in
      lifecycle-record_failure _ _
      ∙ ap (λ (c : Core P.State). c.lifecycle)
          (core-expire P now reconciled ∙ core-reconcile_outputs P now outputs r)

  spend_unlocks :
      (o : Outside) (r : LockRuntime P)
      → r.state.lifecycle ≡ locked
      → r.session_lock ≡ true
      → (P.take_authorization r.presentation).0 ≡ true
      → ((spend_authorization P o r).effects ≡ unlocked ∷ r.effects)
        × ((spend_authorization P o r).terminate ≡ true)
  unfolding spend_authorization authorize_unlock apply fail update
  spend_unlocks o r l k g = ground arith

  stops :
      (b : Bool) (e : Option Error) (c : Bool) (x y z w : LockRuntime P)
      → b ≡ false
      → e ≡ none
      → c ≡ true
      → (if b then x else elim e [ some err ↦ fail P err y | none ↦ if c then z else w ]) ≡ z
  stops true e c x y z w h k l = cc
  stops false (some err) c x y z w h k l = cc
  stops false none false x y z w h k l = cc
  stops false none true x y z w h k l = refl

  round_stops :
      (o : Outside) (d : ℕ → Device) (now : ℕ) (outputs : List Output) (r : LockRuntime P)
      → r.terminate ≡ false
      → r.session_lock ≡ true
      → (spend_authorization P o (before_spending P now outputs r)).terminate ≡ true
      → round P o d now outputs r ≡ spend_authorization P o (before_spending P now outputs r)
  unfolding round before_spending
  round_stops o d now outputs r t h k =
      stops r.terminate (reconcile_outputs P now outputs r).1 _ _ _ _ _ t
        (reconcile_ok now outputs r h) k

  -- A round of a process that goes on, with a confirmed lock, in which the presentation grants its
  -- authorization, sends the unlock request and ends the loop.
  pub authorized_unlocks :
      (o : Outside) (d : ℕ → Device) (now : ℕ) (outputs : List Output) (r : LockRuntime P)
      → IsSafe P r
      → r.terminate ≡ false
      → r.state.lifecycle ≡ locked
      → grants r ≡ true
      → ((round P o d now outputs r).effects ≡ unlocked ∷ r.effects)
        × ((round P o d now outputs r).terminate ≡ true)
  authorized_unlocks o d now outputs r safe t l g =
      let start = before_spending P now outputs r in
      let a = Advances-before_spending P now outputs r in
      let held : r.session_lock ≡ true = safe.held (safe.locked_alive l) in
      let same = presentation-before_spending P now outputs r in
      let spent =
        spend_unlocks o start (lifecycle-before_spending now outputs r ∙ l) (a.same_lock ∙ held)
          (ap (λ (p : P.State). (P.take_authorization p).0) same ∙ g) in
      let e = round_stops o d now outputs r t held spent.1 in
      (
        ap (λ (x : LockRuntime P). x.effects) e ∙ (spent.0 ∙ ap (◌∷◌ unlocked) a.same_effects),
        ap (λ (x : LockRuntime P). x.terminate) e ∙ spent.1,
      )
