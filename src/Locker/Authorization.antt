-- ===== src/Locker/Authorization.antt =====
-- When `receive_auth` of src/locker/mod.rs authorizes the unlock.
use genkan.Prelude.{
  ℕ, zero, suc, Bool, true, false, ◌&&◌, ◌||◌, Option, none, some, List, [], ◌∷◌, ◌≡◌, refl, sym,
  ap, ◌∙◌, arith, subst, ◌==◌, if◌then◌else◌, any, Option-cases, inl, inr,
}
use genkan.Conversation.{accepts, receive, respond, clear_response, clear_notice, set_notice}
use genkan.Locker.Services.{Event, prompt, notice, success, failure, Services}
use genkan.Locker.Presenter.{
  max_auth_events_per_refresh, Locker, receive_auth, receive_events, next_event, polled,
  handle_event,
}
use genkan.Locker.Pairing.{IsPaired, IsDelivered-next_event, IsPaired-turn, guarded}

abbrev pub is_success : Event → Bool
is_success success = true
is_success _ = false

module _ (S : Services) where
  open S use {Client, try_receive}

  -- The events that a client delivers in a number of tries, up to the first that gives none.
  unfoldable pub delivered : ℕ → Client → List Event
  delivered zero client = []
  delivered (suc tries) client =
      let (event, client') = try_receive client in
      let rest = delivered tries client' in elim event [ none ↦ [] | some e ↦ e ∷ rest ]

  unfoldable pub offered : ℕ → Option (ℕ × Client) → List Event
  offered tries none = []
  offered tries (some (attempt, client)) = delivered tries client

  handle_event-authorized :
      (e : Event) (p : Locker S)
      → (handle_event S e p.conversation.attempt p).authorized ≡ is_success e || p.authorized
  unfolding handle_event receive accepts respond set_notice clear_response clear_notice
  handle_event-authorized (prompt id secret message) p = refl
  handle_event-authorized (notice error message) p = refl
  handle_event-authorized success p = ground arith
  handle_event-authorized failure p = refl

  handle_event-auth : (e : Event) (a : ℕ) (p : Locker S) → (handle_event S e a p).auth ≡ p.auth
  unfolding handle_event
  handle_event-auth (prompt id secret message) a p = refl
  handle_event-auth (notice error message) a p = refl
  handle_event-auth success a p = refl
  handle_event-auth failure a p = refl

  offered_next :
      (n : ℕ) (p : Locker S) (e : Event) (a : ℕ)
      → (next_event S p).0 ≡ some (e, a)
      → (offered (suc n) p.auth ≡ e ∷ offered n (next_event S p).1.auth)
        × ((next_event S p).1.authorized ≡ p.authorized)
  unfolding next_event polled offered delivered
  offered_next n p e a h = (ground arith, ground arith)

  offered_none :
      (n : ℕ) (p : Locker S)
      → (next_event S p).0 ≡ none
      → (offered (suc n) p.auth ≡ []) × ((next_event S p).1.authorized ≡ p.authorized)
  unfolding next_event polled offered delivered
  offered_none n p h = (ground arith, ground arith)

  abbrev turn : Event → ℕ → Locker S → Locker S
  turn e a q = if accepts a q.conversation then handle_event S e a q else q

  turn_outcome :
      (e : Event) (a : ℕ) (q : Locker S)
      → a ≡ q.conversation.attempt
      → ((turn e a q).authorized ≡ is_success e || q.authorized) × ((turn e a q).auth ≡ q.auth)
  unfolding accepts
  turn_outcome e a q same =
      let accepted : (a == q.conversation.attempt) ≡ true = ground (arith, same) in
      rw accepted (
        subst (λ n. (handle_event S e n q).authorized ≡ is_success e || q.authorized) (sym same)
            (handle_event-authorized e q),
        handle_event-auth e a q,
      )

  or_swap : (a b c d : Bool) → d ≡ a || (b || c) → d ≡ (b || a) || c
  or_swap a b c d h = ground arith

  offered_zero : (auth : Option (ℕ × Client)) → offered 0 auth ≡ []
  unfolding offered delivered
  offered_zero none = refl
  offered_zero (some x) = refl

  receive_events-authorized :
      (turns : ℕ) (changed : Bool) (p : Locker S)
      → p.confirmed ≡ true
      → IsPaired S p
      → (receive_events S turns changed p).1.authorized
        ≡ any is_success (offered turns p.auth) || p.authorized
  unfolding receive_events
  receive_events-authorized zero changed p c h = rw (offered_zero p.auth) refl
  receive_events-authorized (suc turns) changed p c h = elim (Option-cases (next_event S p).0) [
    | inl e ↦ let n = offered_none turns p e in rw (e, receive_events, n.0) n.1
    | inr ((event, a), e) ↦
        let q = (next_event S p).1 in
        let d = IsDelivered-next_event S p event a c h e in
        let t = IsPaired-turn S event a q d in
        let o = turn_outcome event a q d.3 in
        let n = offered_next turns p event a e in
        rw (e, receive_events, n.0)
          (or_swap (any is_success (offered turns q.auth)) (is_success event) p.authorized
            (receive_events S turns true (turn event a q)).1.authorized
            (receive_events-authorized turns true (turn event a q) t.1 t.0
              ∙ ap (λ x. any is_success (offered turns x) || (turn event a q).authorized) o.1
              ∙ ap (λ x. any is_success (offered turns q.auth) || x) o.0
              ∙ ap (λ x. any is_success (offered turns q.auth) || (is_success event || x)) n.1))
  ]

  guarded-authorized :
      (b changed x : Bool) (p q : Locker S)
      → (b ≡ true → q.authorized ≡ x || p.authorized)
      → (guarded S b changed p q).1.authorized ≡ (b && x) || p.authorized
  guarded-authorized false changed x p q h = refl
  guarded-authorized true false x p q h = h refl
  guarded-authorized true true x p q h = h refl

  -- While the client serves the attempt that the conversation is in, `receive_auth` authorizes
  -- exactly if it was authorized before, or the lock is confirmed and a success is among the next
  -- 32 events of the client.
  pub receive_auth-authorized :
      (p : Locker S)
      → IsPaired S p
      → (receive_auth S p).1.authorized
        ≡ (p.confirmed && any is_success (offered max_auth_events_per_refresh p.auth))
          || p.authorized
  unfolding receive_auth
  receive_auth-authorized p h =
      let r = receive_events S max_auth_events_per_refresh false p in
      guarded-authorized p.confirmed r.0 _ p r.1
        (λ c. receive_events-authorized max_auth_events_per_refresh false p c h)
