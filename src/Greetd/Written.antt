-- ===== src/Greetd/Written.antt =====
-- What a restart of src/auth.rs writes, by what comes of each exchange.
use genkan.Prelude.{
  ℕ, suc, Bool, true, false, Option, none, some, List, [], ◌∷◌, ◌++◌, Text, inl, inr, sym, ap, ◌∙◌,
  Bool-cases, ◌≡◌, refl, arith, if◌then◌else◌,
}
use mathlib.Core.List.{append_assoc, append-nil}
use genkan.Greetd.{
  GreetdResponse, auth_message, cancellation, is_ok, Request, create_session, cancel_session,
  Response, ok, err, Wire, Reply, unwritten, unread, garbled, answer, from_greetd, Call, connect_to,
  exchange, take_reply, with_response, create_on, begin_at, cancel_stale, recover_and_begin_at,
  cancel_on, cancel, restart_at,
}

module _ (is_set : Bool) (connects : ℕ → Bool) (replies : ℕ → Reply) where
  pub reply-tried :
      (reply : Reply) (client : ℕ) (r : Request) (v : Wire)
      → (take_reply is_set connects replies reply client r v).0.tried ≡ v.tried
  unfolding take_reply
  reply-tried unwritten client r v = refl
  reply-tried unread client r v = refl
  reply-tried garbled client r v = refl
  reply-tried (answer a) client r v = refl

  -- What is written of a request, by what comes of its exchange.
  abbrev sent : Reply → ℕ × Request → List (ℕ × Request)
  sent unwritten request = []
  sent _ request = request ∷ []

  -- A request on the connection of this number, if there is one.
  abbrev sent_on : ℕ → Request → ℕ → List (ℕ × Request)
  sent_on client request begun =
      if connects client then sent (replies begun) (client, request) else []

  -- The exchanges before the request to create, when a new connection is used to cancel first.
  abbrev begun_after : Wire → ℕ
  begun_after w = if connects w.tried then suc w.begun else w.begun

  abbrev recovery : Text → Wire → List (ℕ × Request)
  recovery username w =
      sent_on (suc w.tried) (create_session username) (begun_after w)
      ++ sent_on w.tried cancel_session w.begun

  abbrev is_accepted : Reply → Bool
  is_accepted (answer GreetdResponse.success) = true
  is_accepted _ = false

  -- The requests of a new start, the last first. A session is cancelled on its connection; if that
  -- is accepted, the new one is created on a new connection, and otherwise, or without a session,
  -- a stale session is cancelled on a new connection and the new one created on another.
  abbrev pub expected : Option ℕ → Text → Wire → List (ℕ × Request)
  expected none username w = recovery username w
  expected (some client) username w =
      let first = sent (replies w.begun) (client, cancel_session) in
      let next : Wire = record w { begun = suc w.begun } in
      if is_accepted (replies w.begun)
      then sent_on w.tried (create_session username) (suc w.begun) ++ first
      else recovery username next ++ first

  reply-written :
      (reply : Reply) (client : ℕ) (r : Request) (v : Wire)
      → ((take_reply is_set connects replies reply client r v).0.written
          ≡ sent reply (client, r) ++ v.written)
        × ((take_reply is_set connects replies reply client r v).0.begun ≡ v.begun)
  unfolding take_reply
  reply-written unwritten client r v = (refl, refl)
  reply-written unread client r v = (refl, refl)
  reply-written garbled client r v = (refl, refl)
  reply-written (answer a) client r v = (refl, refl)

  with_response-wire :
      (client : ℕ) (c : Call Response) → (with_response is_set connects replies client c).0 ≡ c.0
  unfolding with_response
  with_response-wire client (w, ok r) = refl
  with_response-wire client (w, err e) = refl

  begin_at-written :
      (username : Text) (v : Wire)
      → (begin_at is_set connects replies username v).0.written
        ≡ sent_on v.tried (create_session username) v.begun ++ v.written
  unfolding begin_at connect_to create_on exchange
  begin_at-written username v = elim (Bool-cases (connects v.tried)) [
    | inl e ↦
        let t : Wire = record v { tried = suc v.tried; begun = suc v.begun } in
        let w = (reply-written (replies v.begun) v.tried (create_session username) t).0 in
        rw (e, with_response-wire v.tried) w
    | inr e ↦ rw e refl
  ]

  recover-written :
      (username : Text) (v : Wire)
      → (recover_and_begin_at is_set connects replies username v).0.written
        ≡ recovery username v ++ v.written
  unfolding recover_and_begin_at connect_to cancel_stale exchange
  recover-written username v = elim (Bool-cases (connects v.tried)) [
    | inl e ↦
        let t : Wire = record v { tried = suc v.tried; begun = suc v.begun } in
        let w = reply-written (replies v.begun) v.tried cancel_session t in
        let k = reply-tried (replies v.begun) v.tried cancel_session t in
        let u = (take_reply is_set connects replies (replies v.begun) v.tried cancel_session t).0 in
        rw e (
          begin_at-written username u
          ∙ ap (λ x. sent_on x (create_session username) u.begun ++ u.written) k
          ∙ ap (λ x. sent_on (suc v.tried) (create_session username) x ++ u.written) w.1
          ∙ ap (λ x. sent_on (suc v.tried) (create_session username) (suc v.begun) ++ x) w.0
          ∙ sym (
              append_assoc (sent_on (suc v.tried) (create_session username) (suc v.begun))
                (sent (replies v.begun) (v.tried, cancel_session)) v.written))
    | inr e ↦ rw e (
        begin_at-written username (record v { tried = suc v.tried })
        ∙ ap (λ x. x ++ v.written) (sym (append-nil _)))
  ]

  is_ok-reply :
      (reply : Reply) (client : ℕ) (v : Wire)
      → is_ok is_set connects replies (
          cancellation is_set connects replies
            (take_reply is_set connects replies reply client cancel_session v).1)
        ≡ is_accepted reply
  unfolding cancellation take_reply from_greetd
  is_ok-reply unwritten client v = refl
  is_ok-reply unread client v = refl
  is_ok-reply garbled client v = refl
  is_ok-reply (answer GreetdResponse.success) client v = refl
  is_ok-reply (answer (GreetdResponse.error k d)) client v = refl
  is_ok-reply (answer (auth_message k t)) client v = ground arith

  pub restart_at-written :
      (client : Option ℕ) (username : Text) (w : Wire)
      → (restart_at is_set connects replies client username w).0.written
        ≡ expected client username w ++ w.written
  unfolding restart_at cancel cancel_on exchange
  restart_at-written none username w = recover-written username w
  restart_at-written (some client) username w =
      let t : Wire = record w { begun = suc w.begun } in
      let v = (take_reply is_set connects replies (replies w.begun) client cancel_session t).0 in
      let x = reply-written (replies w.begun) client cancel_session t in
      let k = reply-tried (replies w.begun) client cancel_session t in
      let o = is_ok-reply (replies w.begun) client t in
      elim (Bool-cases (is_accepted (replies w.begun))) [
        | inl e ↦
            rw (o, e)
              (begin_at-written username v
                ∙ ap (λ y. sent_on y (create_session username) v.begun ++ v.written) k
                ∙ ap (λ y. sent_on w.tried (create_session username) y ++ v.written) x.1
                ∙ ap (λ y. sent_on w.tried (create_session username) (suc w.begun) ++ y) x.0
                ∙ sym (
                    append_assoc (sent_on w.tried (create_session username) (suc w.begun))
                      (sent (replies w.begun) (client, cancel_session)) w.written))
        | inr e ↦
            rw (o, e)
              (recover-written username v
                ∙ ap (λ y. recovery username (record v { tried = y }) ++ v.written) k
                ∙ ap (λ y. recovery username (record v { tried = w.tried; begun = y }) ++ v.written)
                    x.1
                ∙ ap (λ y. recovery username t ++ y) x.0
                ∙ sym (
                    append_assoc (recovery username t)
                      (sent (replies w.begun) (client, cancel_session)) w.written))
      ]
