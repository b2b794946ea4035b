-- ===== src/Locker/Pairing.antt =====
-- What every method of `LockerPresentation` in src/locker/mod.rs keeps true of the worker, the
-- prompt and the conversation.
use genkan.Prelude.{
  ℕ, zero, suc, Bool, true, false, not, Option, none, some, ◌≡◌, refl, sym, ◌∙◌, arith, subst, ◌==◌,
  if◌then◌else◌, is_some, Bool-cases, Option-cases, inl, inr,
}
use genkan.Conversation.{
  is_waiting, begin_attempt, accepts, receive, respond, fail, clear_response, clear_notice,
  set_notice,
}
use genkan.Locker.Services.{Event, prompt, notice, success, failure, Services}
use genkan.Locker.Presenter.{
  max_auth_events_per_refresh, Locker, rebuild_frame, fail_authentication, cancel_client,
  replace_worker, retry, cancel_attempt, receive_auth, receive_events, next_event, polled,
  handle_event,
}
use genkan.Locker.Dialogue.{is_failed}

module _ (S : Services) where
  open S use {Client}

  abbrev pub attempt_matches : Option (ℕ × Client) → ℕ → Bool
  attempt_matches none n = true
  attempt_matches (some (a, c)) n = a == n

  -- The client's attempt is the conversation's; a conversation that waits has a prompt to answer;
  -- without a client the conversation has failed, so that it can be tried again.
  pub record IsPaired (p : Locker S) : Type 0 where
    pub same_attempt : attempt_matches p.auth p.conversation.attempt ≡ true
    pub asked : is_waiting p.conversation.status ≡ true → is_some p.prompt_id ≡ true
    pub served : is_some p.auth ≡ false → is_failed p.conversation.status ≡ true
    pub confirmed : p.authorized ≡ true → p.confirmed ≡ true

  pub IsPaired-rebuild_frame : (p : Locker S) → IsPaired p → IsPaired (rebuild_frame S p)
  unfolding rebuild_frame
  IsPaired-rebuild_frame p h = record {
    same_attempt = ground (arith, h.same_attempt);
    asked = ground (arith, h.asked);
    served = ground (arith, h.served);
    confirmed = ground (arith, h.confirmed);
  }

  pub IsPaired-fail : (p : Locker S) → IsPaired p → IsPaired (fail_authentication S p)
  unfolding fail_authentication fail receive accepts respond set_notice clear_response
  IsPaired-fail p h = record {
    same_attempt = ground (arith, h.same_attempt);
    asked = ground (arith, h.asked);
    served = ground (arith, h.served);
    confirmed = ground (arith, h.confirmed);
  }

  IsPaired-replace_worker :
      (p : Locker S)
      → (p.authorized ≡ true → p.confirmed ≡ true)
      → is_waiting p.conversation.status ≡ false
      → IsPaired (replace_worker S p.conversation.attempt p)
  unfolding replace_worker cancel_client fail_authentication fail receive accepts respond set_notice
      clear_response
  IsPaired-replace_worker p h w = record {
    same_attempt = ground (arith, h);
    asked = ground (arith, h);
    served = ground (arith, h);
    confirmed = ground (arith, h);
  }

  pub IsPaired-retry : (p : Locker S) → IsPaired p → IsPaired (retry S p).1
  unfolding retry replace_worker cancel_client fail_authentication fail receive accepts respond
      set_notice begin_attempt clear_response clear_notice
  IsPaired-retry p h = record {
    same_attempt = ground (arith, h.same_attempt, h.asked, h.served, h.confirmed);
    asked = ground (arith, h.same_attempt, h.asked, h.served, h.confirmed);
    served = ground (arith, h.same_attempt, h.asked, h.served, h.confirmed);
    confirmed = ground (arith, h.same_attempt, h.asked, h.served, h.confirmed);
  }

  pub IsPaired-cancel_attempt : (p : Locker S) → IsPaired p → IsPaired (cancel_attempt S p).1
  unfolding cancel_attempt replace_worker cancel_client fail_authentication fail receive accepts
      respond set_notice begin_attempt clear_response clear_notice
  IsPaired-cancel_attempt p h = record {
    same_attempt = ground (arith, h.same_attempt, h.asked, h.served, h.confirmed);
    asked = ground (arith, h.same_attempt, h.asked, h.served, h.confirmed);
    served = ground (arith, h.same_attempt, h.asked, h.served, h.confirmed);
    confirmed = ground (arith, h.same_attempt, h.asked, h.served, h.confirmed);
  }

  IsPaired-handle_event :
      (e : Event) (p : Locker S)
      → p.confirmed ≡ true
      → is_some p.auth ≡ true
      → IsPaired p
      → IsPaired (handle_event S e p.conversation.attempt p)
  unfolding handle_event receive accepts respond set_notice clear_response clear_notice
  IsPaired-handle_event (prompt id secret message) p c a h = record {
    same_attempt = ground (arith, h.same_attempt, h.asked, h.served, h.confirmed);
    asked = ground (arith, h.same_attempt, h.asked, h.served, h.confirmed);
    served = ground (arith, h.same_attempt, h.asked, h.served, h.confirmed);
    confirmed = ground (arith, h.same_attempt, h.asked, h.served, h.confirmed);
  }
  IsPaired-handle_event (notice error message) p c a h = record {
    same_attempt = ground (arith, h.same_attempt, h.asked, h.served, h.confirmed);
    asked = ground (arith, h.same_attempt, h.asked, h.served, h.confirmed);
    served = ground (arith, h.same_attempt, h.asked, h.served, h.confirmed);
    confirmed = ground (arith, h.same_attempt, h.asked, h.served, h.confirmed);
  }
  IsPaired-handle_event success p c a h = record {
    same_attempt = ground (arith, h.same_attempt, h.asked, h.served, h.confirmed);
    asked = ground (arith, h.same_attempt, h.asked, h.served, h.confirmed);
    served = ground (arith, h.same_attempt, h.asked, h.served, h.confirmed);
    confirmed = ground (arith, h.same_attempt, h.asked, h.served, h.confirmed);
  }
  IsPaired-handle_event failure p c a h = record {
    same_attempt = ground (arith, h.same_attempt, h.asked, h.served, h.confirmed);
    asked = ground (arith, h.same_attempt, h.asked, h.served, h.confirmed);
    served = ground (arith, h.same_attempt, h.asked, h.served, h.confirmed);
    confirmed = ground (arith, h.same_attempt, h.asked, h.served, h.confirmed);
  }

  -- A poll changes the client only, delivered or not.
  IsPaired-next_event : (p : Locker S) → IsPaired p → IsPaired (next_event S p).1
  unfolding next_event polled
  IsPaired-next_event p h = record {
    same_attempt = ground (arith, h.same_attempt);
    asked = ground (arith, h.asked);
    served = ground (arith, h.served);
    confirmed = ground (arith, h.confirmed);
  }

  -- What holds of a client that has just delivered an event.
  abbrev pub IsDelivered : ℕ → Locker S → Type 0
  IsDelivered attempt q =
      IsPaired q
      × (q.confirmed ≡ true)
      × (is_some q.auth ≡ true)
      × (attempt ≡ q.conversation.attempt)

  pub IsDelivered-next_event :
      (p : Locker S) (e : Event) (a : ℕ)
      → p.confirmed ≡ true
      → IsPaired p
      → (next_event S p).0 ≡ some (e, a)
      → IsDelivered a (next_event S p).1
  unfolding next_event polled
  IsDelivered-next_event p e a c h n =
      (IsPaired-next_event p h, ground (arith, c), ground arith, ground (arith, h.same_attempt))

  handle_event-confirmed :
      (e : Event) (a : ℕ) (p : Locker S) → (handle_event S e a p).confirmed ≡ p.confirmed
  unfolding handle_event
  handle_event-confirmed (prompt id secret message) a p = refl
  handle_event-confirmed (notice error message) a p = refl
  handle_event-confirmed success a p = refl
  handle_event-confirmed failure a p = refl

  pub IsPaired-turn :
      (e : Event) (a : ℕ) (q : Locker S)
      → IsDelivered a q
      → IsPaired (if accepts a q.conversation then handle_event S e a q else q)
        × ((if accepts a q.conversation then handle_event S e a q else q).confirmed ≡ true)
  IsPaired-turn e a q (h, c, s, same) = elim (Bool-cases (accepts a q.conversation)) [
    | inl y ↦ rw y (
      subst (λ n. IsPaired (handle_event S e n q)) (sym same) (IsPaired-handle_event e q c s h),
      handle_event-confirmed e a q ∙ c,
    )
    | inr y ↦ rw y (h, c)
  ]

  IsPaired-receive_events :
      (turns : ℕ) (changed : Bool) (p : Locker S)
      → p.confirmed ≡ true
      → IsPaired p
      → IsPaired (receive_events S turns changed p).1
  unfolding receive_events
  IsPaired-receive_events zero changed p c h = h
  IsPaired-receive_events (suc turns) changed p c h = elim (Option-cases (next_event S p).0) [
    | inl e ↦ rw (e, receive_events) (IsPaired-next_event p h)
    | inr ((event, a), e) ↦
        let q = (next_event S p).1 in
        let t = IsPaired-turn event a q (IsDelivered-next_event p event a c h e) in
        rw (e, receive_events)
          (IsPaired-receive_events turns true
            (if accepts a q.conversation then handle_event S event a q else q) t.1 t.0)
  ]

  IsPaired-page : (n : ℕ) (p : Locker S) → IsPaired p → IsPaired (record p { instruction_page = n })
  IsPaired-page n p h = record {
    same_attempt = h.same_attempt;
    asked = h.asked;
    served = h.served;
    confirmed = h.confirmed;
  }

  -- The test on `confirmed` and the choice of the new state.
  abbrev pub guarded : Bool → Bool → Locker S → Locker S → Bool × Locker S
  guarded b changed p q =
      if not b
      then (false, p)
      else (changed, if changed then record q { instruction_page = 0 } else q)

  IsPaired-guard :
      (b changed : Bool) (p q : Locker S)
      → IsPaired p
      → (b ≡ true → IsPaired q)
      → IsPaired (guarded b changed p q).1
  IsPaired-guard false changed p q h k = h
  IsPaired-guard true false p q h k = k refl
  IsPaired-guard true true p q h k = IsPaired-page 0 q (k refl)

  pub IsPaired-receive_auth : (p : Locker S) → IsPaired p → IsPaired (receive_auth S p).1
  unfolding receive_auth
  IsPaired-receive_auth p h =
      let r = receive_events S max_auth_events_per_refresh false p in
      IsPaired-guard p.confirmed r.0 p r.1 h
        (λ c. IsPaired-receive_events max_auth_events_per_refresh false p c h)
