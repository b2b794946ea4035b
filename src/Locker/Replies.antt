-- ===== src/Locker/Replies.antt =====
-- The way of a typed response to the worker, in src/locker/mod.rs, and of a second try.
use genkan.Prelude.{
  ℕ, Bool, true, false, Option, none, some, [], Text, ◌≡◌, refl, ap, sym, subst, ◌∙◌, arith, ◌⊎◌,
  ◌+◌, ◌∷◌, is_some, Bool-cases, Option-cases, inl, inr, if◌then◌else◌,
}
use genkan.SessionLock.Frames.{Input}
use genkan.Conversation.{
  Conversation, Status, submitting, is_waiting, submit, fail, receive, respond, accepts, set_notice,
  clear_response, begin_attempt, clear_notice, next_attempt,
}
use genkan.Locker.Services.{Services}
use genkan.Locker.Presenter.{
  Locker, rebuild_frame, rebuild_overlay, fail_authentication, cancel_client, replace_worker, retry,
  cancel_attempt,
}
use genkan.Locker.Dialogue.{is_failed, deliver, submit_response, take_input, input}
use genkan.Locker.Pairing.{IsPaired}

some_of {ℓ} : {A : Type ℓ} (o : Option A) → is_some o ≡ true → (a : A) × (o ≡ some a)
some_of none h = ground arith
some_of (some a) h = (a, refl)

module _ (S : Services) where
  -- What a rebuilt overlay leaves as it is.
  record SameDialogue (p q : Locker S) : Type 0 where
    auth : q.auth ≡ p.auth
    prompt_id : q.prompt_id ≡ p.prompt_id
    conversation : q.conversation ≡ p.conversation

  SameDialogue-rebuild_frame : (p : Locker S) → SameDialogue p (rebuild_frame S p)
  unfolding rebuild_frame
  SameDialogue-rebuild_frame p = record {
    auth = ground arith;
    prompt_id = ground arith;
    conversation = ground arith;
  }

  SameDialogue-rebuild_overlay : (p : Locker S) → SameDialogue p (rebuild_overlay S p)
  unfolding rebuild_overlay
  SameDialogue-rebuild_overlay p =
      let h = SameDialogue-rebuild_frame _ in
      record { auth = h.auth; prompt_id = h.prompt_id; conversation = h.conversation }

  -- The client was called with this response to the prompt of this number; it is kept, for the same
  -- attempt. If the call succeeds, the conversation is under way, and otherwise it has failed.
  pub record IsAnswered (id a : ℕ) (client : S.Client) (response : Text) (p : Locker S)
      : Type 0 where
    pub called : p.auth ≡ some (a, (S.respond id response client).1)
    pub same_attempt : p.conversation.attempt ≡ a
    pub outcome :
        p.conversation.status
        ≡ (if (S.respond id response client).0 then submitting else Status.failed)
    pub spent : p.prompt_id ≡ none
    pub forgotten : p.conversation.input ≡ []
    pub closed : is_waiting p.conversation.status ≡ false

  submit_response-IsAnswered :
      (p : Locker S) (id a : ℕ) (client : S.Client)
      → IsPaired S p
      → is_waiting p.conversation.status ≡ true
      → p.prompt_id ≡ some id
      → p.auth ≡ some (a, client)
      → ((submit_response S p).0 ≡ true)
        × IsAnswered id a client p.conversation.input (submit_response S p).1
  unfolding submit_response deliver submit fail_authentication fail receive accepts respond
      set_notice clear_response
  submit_response-IsAnswered p id a client h w i c = (
    ground (arith, h.same_attempt),
    record {
      called = ground (arith, h.same_attempt);
      same_attempt = ground (arith, h.same_attempt);
      outcome = ground (arith, h.same_attempt);
      spent = ground arith;
      forgotten = ground (arith, h.same_attempt);
      closed = ground (arith, h.same_attempt);
    },
  )

  IsAnswered-rebuild_overlay :
      (id a : ℕ) (client : S.Client) (v : Text) (p : Locker S)
      → IsAnswered id a client v p
      → IsAnswered id a client v (rebuild_overlay S p)
  IsAnswered-rebuild_overlay id a client v p h =
      let e = SameDialogue-rebuild_overlay p in
      record {
        called = e.auth ∙ h.called;
        same_attempt = ap (λ (c : Conversation). c.attempt) e.conversation ∙ h.same_attempt;
        outcome = ap (λ (c : Conversation). c.status) e.conversation ∙ h.outcome;
        spent = e.prompt_id ∙ h.spent;
        forgotten = ap (λ (c : Conversation). c.input) e.conversation ∙ h.forgotten;
        closed = ap (λ (c : Conversation). is_waiting c.status) e.conversation ∙ h.closed;
      }

  waiting-not_failed : (s : Status) → is_waiting s ≡ true → is_failed s ≡ false
  waiting-not_failed s w = ground arith

  input_submit :
      (p : Locker S)
      → p.confirmed ≡ true
      → is_waiting p.conversation.status ≡ true
      → (submit_response S p).0 ≡ true
      → input S p Input.submit ≡ (true, rebuild_overlay S (submit_response S p).1)
  unfolding input take_input
  input_submit p c w e = rw (waiting-not_failed p.conversation.status w, e, c) refl

  -- In a presentation in which the client is that of the conversation's attempt, a conversation
  -- that waits has a prompt, and one that has not failed has a client: with a confirmed lock, while
  -- the conversation waits, submitting calls that client with the typed text as the response to
  -- that prompt. Whether the call succeeds or fails, the client is kept for the same attempt, the
  -- prompt is spent, the text is forgotten and no response is awaited any more; the conversation is
  -- under way if it succeeds, and has failed if it fails.
  pub submit_reaches_client :
      (p : Locker S)
      → IsPaired S p
      → p.confirmed ≡ true
      → is_waiting p.conversation.status ≡ true
      → (id : ℕ) × (a : ℕ) × (client : S.Client) × (p.prompt_id ≡ some id)
        × (p.auth ≡ some (a, client))
        × ((input S p Input.submit).0 ≡ true)
        × IsAnswered id a client p.conversation.input (input S p Input.submit).1
  submit_reaches_client p h c w =
      let (id, i) = some_of p.prompt_id (h.asked w) in
      let ((a, client), k) = some_of p.auth (ground (arith, h.served)) in
      let r = submit_response-IsAnswered p id a client h w i k in
      let e = input_submit p c w r.0 in
      (
        id,
        a,
        client,
        i,
        k,
        ap (λ (x : Bool × Locker S). x.0) e,
        subst (λ (x : Bool × Locker S). IsAnswered id a client p.conversation.input x.1) (sym e)
            (IsAnswered-rebuild_overlay id a client p.conversation.input (submit_response S p).1
              r.1),
      )

  abbrev pub is_begun : Option S.Client → Bool
  is_begun none = false
  is_begun (some client) = (S.begin client).0

  abbrev pub is_retried : Option (ℕ × S.Client) → Bool
  is_retried none = false
  is_retried (some (a, client)) = (S.retry client).0

  -- The next worker was started for the attempt. If it starts and begins, its client serves the
  -- attempt; otherwise there is no client and the conversation has failed.
  abbrev pub IsReplaced : Locker S → Locker S → Type 0
  IsReplaced p q =
      (q.started ≡ p.started + 1)
      × (((client : S.Client) × (S.start p.started ≡ some client)
            × ((S.begin client).0 ≡ true)
            × (q.auth ≡ some (q.conversation.attempt, (S.begin client).1))
            × (q.conversation.status ≡ submitting))
          ⊎ ((is_begun (S.start p.started) ≡ false)
              × (q.auth ≡ none)
              × (q.conversation.status ≡ Status.failed)))

  -- The client was asked to retry, and serves the new attempt.
  abbrev pub IsRetried : Locker S → Locker S → Type 0
  IsRetried p q =
      (a : ℕ) × (client : S.Client) × (p.auth ≡ some (a, client))
      × ((S.retry client).0 ≡ true)
      × (q.auth ≡ some (q.conversation.attempt, (S.retry client).1))
      × (q.conversation.status ≡ submitting)

  -- A new attempt: its number follows the old one, and no prompt and no input are left.
  pub record IsRestarted (p q : Locker S) : Type 0 where
    pub next : q.conversation.attempt ≡ next_attempt p.conversation.attempt
    pub unprompted : q.prompt_id ≡ none
    pub emptied : q.conversation.input ≡ []

  replace_worker-IsReplaced :
      (p : Locker S)
      → p.conversation.status ≡ submitting
      → IsReplaced p (replace_worker S p.conversation.attempt p)
  unfolding replace_worker cancel_client fail_authentication fail receive accepts respond set_notice
      clear_response
  replace_worker-IsReplaced p h = (
    ground arith,
    elim (Option-cases (S.start p.started)) [
      | inl e ↦ inr (rw e refl, ground arith, ground arith)
      | inr (client, e) ↦ elim (Bool-cases (S.begin client).0) [
        | inl b ↦ inl (client, e, b, ground arith, ground arith)
        | inr b ↦ inr (rw e b, ground arith, ground arith)
      ]
    ],
  )

  retry-IsRestarted : (p : Locker S) → IsRestarted p (retry S p).1
  unfolding retry replace_worker cancel_client fail_authentication fail receive accepts respond
      set_notice begin_attempt clear_response clear_notice next_attempt
  retry-IsRestarted p = record {
    next = ground arith;
    unprompted = ground arith;
    emptied = ground arith;
  }

  cancel_attempt-IsRestarted :
      (p : Locker S) → is_some p.auth ≡ true → IsRestarted p (cancel_attempt S p).1
  unfolding cancel_attempt replace_worker cancel_client fail_authentication fail receive accepts
      respond set_notice begin_attempt clear_response clear_notice next_attempt
  cancel_attempt-IsRestarted p s = record {
    next = ground arith;
    unprompted = ground arith;
    emptied = ground arith;
  }

  begin_attempt-submitting : (c : Conversation) → (begin_attempt c).status ≡ submitting
  unfolding begin_attempt clear_response clear_notice
  begin_attempt-submitting c = refl

  retry-outcome :
      (p : Locker S)
      → IsRetried p (retry S p).1 ⊎ ((is_retried p.auth ≡ false) × IsReplaced p (retry S p).1)
  unfolding retry
  retry-outcome p =
      let q : Locker S = record p {
        instruction_page = 0;
        conversation = begin_attempt p.conversation;
      } in
      elim (Option-cases p.auth) [
        | inl e ↦
            rw e (inr (refl, replace_worker-IsReplaced q (begin_attempt-submitting p.conversation)))
        | inr ((a, client), e) ↦ elim (Bool-cases (S.retry client).0) [
          | inl b ↦
              rw (e, b) (inl (a, client, refl, b, refl, begin_attempt-submitting p.conversation))
          | inr b ↦
              let r : Locker S = record q { auth = some (a, (S.retry client).1) } in
              rw (e, b)
                (inr (refl, replace_worker-IsReplaced r (begin_attempt-submitting p.conversation)))
        ]
      ]

  cancel_attempt-outcome :
      (p : Locker S)
      → is_some p.auth ≡ true
      → ((cancel_attempt S p).0 ≡ true) × IsReplaced p (cancel_attempt S p).1
  unfolding cancel_attempt
  cancel_attempt-outcome p s =
      let ((a, client), e) = some_of p.auth s in
      let q : Locker S = record p {
        auth = none;
        conversation = begin_attempt p.conversation;
        instruction_page = 0;
        cancelled = client ∷ p.cancelled;
      } in
      rw e (refl, replace_worker-IsReplaced q (begin_attempt-submitting p.conversation))

  cancel_attempt-none : (p : Locker S) → is_some p.auth ≡ false → cancel_attempt S p ≡ (false, p)
  unfolding cancel_attempt
  cancel_attempt-none p s = ground arith

  -- A retry, and the cancelling of an attempt that a client serves, start the attempt with the next
  -- number, with no prompt open and no input held. A retry asks the client, if there is one, and if
  -- that succeeds the client serves the new attempt. With no client, or if it fails, and always
  -- when cancelling, the next worker is started: it serves the new attempt if it begins, and
  -- otherwise no client is left and the conversation has failed. With no client, cancelling does
  -- nothing.
  pub restarts :
      (p : Locker S)
      → (((retry S p).0 ≡ true)
          × IsRestarted p (retry S p).1
          × (IsRetried p (retry S p).1
              ⊎ ((is_retried p.auth ≡ false) × IsReplaced p (retry S p).1)))
        × (((is_some p.auth ≡ true)
              × ((cancel_attempt S p).0 ≡ true)
              × IsRestarted p (cancel_attempt S p).1
              × IsReplaced p (cancel_attempt S p).1)
            ⊎ ((is_some p.auth ≡ false) × (cancel_attempt S p ≡ (false, p))))
  unfolding retry
  restarts p = (
    (refl, retry-IsRestarted p, retry-outcome p),
    elim (Bool-cases (is_some p.auth)) [
      | inl s ↦
          let c = cancel_attempt-outcome p s in inl (s, c.0, cancel_attempt-IsRestarted p s, c.1)
      | inr s ↦ inr (s, cancel_attempt-none p s)
    ],
  )
