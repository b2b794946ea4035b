-- ===== src/Locker/Histories.antt =====
-- The invariant of Pairing for every method of the trait `Presentation`, in any order:
-- src/locker/mod.rs.
use genkan.Prelude.{
  Bool, true, false, not, none, some, List, [], ◌∷◌, Text, refl, arith, if◌then◌else◌, Bool-cases,
  inl, inr,
}
use genkan.SessionLock.Frames.{Input, Refresh, rgba_frame}
use genkan.Conversation.{
  new as new_conversation, accepts, push_input, pop_input, submit, receive, respond, fail,
  clear_response, set_notice,
}
use genkan.Locker.Services.{Services}
use genkan.Locker.Presenter.{
  new, overlay_width, overlay_height, Locker, rebuild_frame, rebuild_overlay, fail_authentication,
  receive_auth,
}
use genkan.Locker.Dialogue.{
  is_failed, begin_client, deliver, submit_response, turn_page, take_input, input, receive_latest,
  receive_deferred, lock_confirmed, take_authorization,
}
use genkan.Locker.Pairing.{
  IsPaired, IsPaired-rebuild_frame, IsPaired-fail, IsPaired-retry, IsPaired-cancel_attempt,
  IsPaired-receive_auth,
}
use genkan.Locker.Calls.{Call, latest, deferred, confirm, authorize, typed, serve, run}

module _ (S : Services) where
  IsPaired-rebuild_overlay : (p : Locker S) → IsPaired S p → IsPaired S (rebuild_overlay S p)
  unfolding rebuild_overlay
  IsPaired-rebuild_overlay p h =
      let overlay =
        rgba_frame overlay_width overlay_height
          (S.render_authentication_overlay p.conversation p.confirmed p.instruction_page) in
      IsPaired-rebuild_frame S (record p { overlay = overlay })
        (record {
          same_attempt = h.same_attempt;
          asked = h.asked;
          served = h.served;
          confirmed = h.confirmed;
        })

  abbrev redrawn : Bool → Locker S → Refresh × Locker S
  redrawn changed p =
      if changed then (Refresh.overlay, rebuild_overlay S p) else (Refresh.unchanged, p)

  IsPaired-redrawn : (b : Bool) (p : Locker S) → IsPaired S p → IsPaired S (redrawn b p).1
  IsPaired-redrawn true p h = IsPaired-rebuild_overlay p h
  IsPaired-redrawn false p h = h

  IsPaired-receive_latest : (p : Locker S) → IsPaired S p → IsPaired S (receive_latest S p).1
  unfolding receive_latest
  IsPaired-receive_latest p h =
      IsPaired-redrawn (receive_auth S p).0 (receive_auth S p).1 (IsPaired-receive_auth S p h)

  IsPaired-receive_deferred : (p : Locker S) → IsPaired S p → IsPaired S (receive_deferred S p).1
  unfolding receive_deferred rebuild_frame
  IsPaired-receive_deferred p h = record {
    same_attempt = ground (arith, h.same_attempt, h.asked, h.served, h.confirmed);
    asked = ground (arith, h.same_attempt, h.asked, h.served, h.confirmed);
    served = ground (arith, h.same_attempt, h.asked, h.served, h.confirmed);
    confirmed = ground (arith, h.same_attempt, h.asked, h.served, h.confirmed);
  }

  IsPaired-begin_client : (p : Locker S) → IsPaired S p → IsPaired S (begin_client S p).1
  unfolding begin_client
  IsPaired-begin_client p h = record {
    same_attempt = ground (arith, h.same_attempt, h.asked, h.served, h.confirmed);
    asked = ground (arith, h.same_attempt, h.asked, h.served, h.confirmed);
    served = ground (arith, h.same_attempt, h.asked, h.served, h.confirmed);
    confirmed = ground (arith, h.same_attempt, h.asked, h.served, h.confirmed);
  }

  abbrev or_failed : Bool → Locker S → Locker S
  or_failed ok p = if ok then p else fail_authentication S p

  IsPaired-or_failed : (b : Bool) (p : Locker S) → IsPaired S p → IsPaired S (or_failed b p)
  IsPaired-or_failed true p h = h
  IsPaired-or_failed false p h = IsPaired-fail S p h

  IsPaired-lock_confirmed : (p : Locker S) → IsPaired S p → IsPaired S (lock_confirmed S p)
  unfolding lock_confirmed
  IsPaired-lock_confirmed p h =
      let q = record p { confirmed = true } in
      let begun = begin_client S q in
      IsPaired-rebuild_overlay (or_failed begun.0 begun.1) (
        IsPaired-or_failed begun.0 begun.1 (
          IsPaired-begin_client q (record {
            same_attempt = h.same_attempt;
            asked = h.asked;
            served = h.served;
            confirmed = λ _. refl;
          })))

  IsPaired-turn_page : (p : Locker S) → IsPaired S p → IsPaired S (turn_page S p).1
  unfolding turn_page
  IsPaired-turn_page p h = record {
    same_attempt = ground (arith, h.same_attempt, h.asked, h.served, h.confirmed);
    asked = ground (arith, h.same_attempt, h.asked, h.served, h.confirmed);
    served = ground (arith, h.same_attempt, h.asked, h.served, h.confirmed);
    confirmed = ground (arith, h.same_attempt, h.asked, h.served, h.confirmed);
  }

  IsPaired-submit_response : (p : Locker S) → IsPaired S p → IsPaired S (submit_response S p).1
  unfolding submit_response deliver submit fail_authentication fail receive accepts respond
      set_notice clear_response
  IsPaired-submit_response p h = record {
    same_attempt = ground (arith, h.same_attempt, h.asked, h.served, h.confirmed);
    asked = ground (arith, h.same_attempt, h.asked, h.served, h.confirmed);
    served = ground (arith, h.same_attempt, h.asked, h.served, h.confirmed);
    confirmed = ground (arith, h.same_attempt, h.asked, h.served, h.confirmed);
  }

  IsPaired-push :
      (v : Text) (p : Locker S) → IsPaired S p → IsPaired S (take_input S (Input.text v) p).1
  unfolding take_input push_input
  IsPaired-push v p h = record {
    same_attempt = ground (arith, h.same_attempt, h.asked, h.served, h.confirmed);
    asked = ground (arith, h.same_attempt, h.asked, h.served, h.confirmed);
    served = ground (arith, h.same_attempt, h.asked, h.served, h.confirmed);
    confirmed = ground (arith, h.same_attempt, h.asked, h.served, h.confirmed);
  }

  IsPaired-pop : (p : Locker S) → IsPaired S p → IsPaired S (take_input S Input.backspace p).1
  unfolding take_input pop_input
  IsPaired-pop p h = record {
    same_attempt = ground (arith, h.same_attempt, h.asked, h.served, h.confirmed);
    asked = ground (arith, h.same_attempt, h.asked, h.served, h.confirmed);
    served = ground (arith, h.same_attempt, h.asked, h.served, h.confirmed);
    confirmed = ground (arith, h.same_attempt, h.asked, h.served, h.confirmed);
  }

  IsPaired-take_authorization :
      (p : Locker S) → IsPaired S p → IsPaired S (take_authorization S p).1
  unfolding take_authorization
  IsPaired-take_authorization p h = record {
    same_attempt = ground (arith, h.same_attempt, h.asked, h.served, h.confirmed);
    asked = ground (arith, h.same_attempt, h.asked, h.served, h.confirmed);
    served = ground (arith, h.same_attempt, h.asked, h.served, h.confirmed);
    confirmed = ground (arith, h.same_attempt, h.asked, h.served, h.confirmed);
  }

  IsPaired-take_input : (i : Input) (p : Locker S) → IsPaired S p → IsPaired S (take_input S i p).1
  unfolding take_input
  IsPaired-take_input (Input.text v) p h = IsPaired-push v p h
  IsPaired-take_input Input.backspace p h = IsPaired-pop p h
  IsPaired-take_input Input.submit p h = elim (Bool-cases (is_failed p.conversation.status)) [
    | inl e ↦ rw e (IsPaired-retry S p h)
    | inr e ↦ rw e (IsPaired-submit_response p h)
  ]
  IsPaired-take_input Input.cancel p h = IsPaired-cancel_attempt S p h
  IsPaired-take_input Input.next_page p h = IsPaired-turn_page p h

  abbrev admitted : Bool → Bool → Locker S → Locker S → Bool × Locker S
  admitted confirmed changed p q =
      if not confirmed then (false, p) else (changed, if changed then rebuild_overlay S q else q)

  IsPaired-admitted :
      (b changed : Bool) (p q : Locker S)
      → IsPaired S p
      → IsPaired S q
      → IsPaired S (admitted b changed p q).1
  IsPaired-admitted false changed p q h k = h
  IsPaired-admitted true false p q h k = k
  IsPaired-admitted true true p q h k = IsPaired-rebuild_overlay q k

  IsPaired-input : (p : Locker S) (i : Input) → IsPaired S p → IsPaired S (input S p i).1
  unfolding input
  IsPaired-input p i h =
      let r = take_input S i p in
      IsPaired-admitted p.confirmed r.0 p r.1 h (IsPaired-take_input i p h)

  pub IsPaired-serve : (c : Call) (p : Locker S) → IsPaired S p → IsPaired S (serve S c p)
  unfolding serve
  IsPaired-serve latest p h = IsPaired-receive_latest p h
  IsPaired-serve deferred p h = IsPaired-receive_deferred p h
  IsPaired-serve confirm p h = IsPaired-lock_confirmed p h
  IsPaired-serve (typed i) p h = IsPaired-input p i h
  IsPaired-serve authorize p h = IsPaired-take_authorization p h

  IsPaired-run : (cs : List Call) (p : Locker S) → IsPaired S p → IsPaired S (run S cs p)
  unfolding run
  IsPaired-run [] p h = h
  IsPaired-run (c ∷ cs) p h = IsPaired-run cs (serve S c p) (IsPaired-serve c p h)

  pub IsPaired-new :
      (client : S.Client) (wallpaper : S.Wallpaper) → IsPaired S (new S client wallpaper)
  unfolding new new_conversation
  IsPaired-new client wallpaper =
      IsPaired-rebuild_overlay
        (record {
          wallpaper = wallpaper;
          conversation = new_conversation;
          auth = some (new_conversation.attempt, client);
          prompt_id = none;
          confirmed = false;
          authorized = false;
          background = S.wallpaper_frame wallpaper;
          overlay = none;
          frame = none;
          instruction_page = 0;
          started = 0;
          cancelled = [];
        })
        (record {
          same_attempt = refl;
          asked = λ e. ground (arith);
          served = λ e. ground (arith);
          confirmed = λ e. ground (arith);
        })

  -- In every history of calls of the trait from a new presentation on: the client serves the
  -- attempt that the conversation is in; a conversation that waits has a prompt to answer; without
  -- a client the conversation has failed; and authorization is there only after the lock is
  -- confirmed.
  pub run-IsPaired :
      (cs : List Call) (client : S.Client) (wallpaper : S.Wallpaper)
      → IsPaired S (run S cs (new S client wallpaper))
  run-IsPaired cs client wallpaper =
      IsPaired-run cs (new S client wallpaper) (IsPaired-new client wallpaper)
