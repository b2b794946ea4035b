-- ===== src/Greetd/Requests.antt =====
-- Which requests src/auth.rs writes, and in which order.
use genkan.Prelude.{
  ℕ, suc, Bool, true, false, Option, none, some, List, [], ◌∷◌, ◌++◌, Text, ◌≤◌, ◌⊎◌, inl, inr, sym,
  ap, ◌≡◌, refl, arith, All, if◌then◌else◌,
}
use genkan.Greetd.{
  Request, create_session, cancel_session, Response, Result, ok, err, Wire, Reply, unwritten,
  unread, garbled, answer, io, protocol, from_greetd, Call, connect_to, exchange, take_reply,
  with_response, create_on, begin_at, cancel_stale, recover_and_begin_at, cancel_on, cancel,
  restart_at,
}
use genkan.Greetd.Written.{reply-tried, expected, restart_at-written}

abbrev IsCancel : ℕ × Request → Type 0
IsCancel (client, request) = request ≡ cancel_session

-- Only cancellations are written.
pub record IsCancelling (w v : Wire) : Type 0 where
  pub cancels : List (ℕ × Request)
  pub all : All IsCancel cancels
  pub written : v.written ≡ cancels ++ w.written

-- Then at most one request to create a session for the user, last and on a connection made since;
-- an answer is that connection's.
pub record IsOrdered (username : Text) (w : Wire) (c : Call (ℕ × Response)) : Type 0 where
  pub cancels : List (ℕ × Request)
  pub creates : List (ℕ × Request)
  pub all : All IsCancel cancels
  pub written : c.0.written ≡ creates ++ (cancels ++ w.written)
  pub once :
      (creates ≡ [])
      ⊎ ((client : ℕ) × (w.tried ≤ client) × (creates ≡ (client, create_session username) ∷ []))
  pub answered :
      (client : ℕ) (r : Response)
      → c.1 ≡ ok (client, r)
      → creates ≡ (client, create_session username) ∷ []

-- A request to create is written after cancellations.
sent-IsOrdered :
    (client : ℕ) (username : Text) (w v : Wire) (cs : List (ℕ × Request))
    (r : Result (ℕ × Response))
    → All IsCancel cs
    → v.written ≡ cs ++ w.written
    → w.tried ≤ client
    → ((c : ℕ) (x : Response) → r ≡ ok (c, x) → c ≡ client)
    → IsOrdered username w (record v { written = (client, create_session username) ∷ v.written }, r)
sent-IsOrdered client username w v cs r h e l f = record {
  cancels = cs;
  creates = (client, create_session username) ∷ [];
  all = h;
  written = ap (λ x. (client, create_session username) ∷ x) e;
  once = inr (client, l, refl);
  answered = λ c x k. ap (λ n. (n, create_session username) ∷ []) (sym (f c x k));
}

cancelled-IsCancelling :
    (client : ℕ) (w v : Wire)
    → IsCancelling w v
    → IsCancelling w (record v { written = (client, cancel_session) ∷ v.written })
cancelled-IsCancelling client w v h = record {
  cancels = (client, cancel_session) ∷ h.cancels;
  all = (refl, h.all);
  written = ap (λ x. (client, cancel_session) ∷ x) h.written;
}

either :
    {username : Text} {w : Wire} (b : Bool) {x y : Call (ℕ × Response)}
    → IsOrdered username w x
    → IsOrdered username w y
    → IsOrdered username w (if b then x else y)
either true h k = h
either false h k = k

module _ (is_set : Bool) (connects : ℕ → Bool) (replies : ℕ → Reply) where
  reply-creates :
      (reply : Reply) (client : ℕ) (username : Text) (w v : Wire) (cs : List (ℕ × Request))
      → All IsCancel cs
      → v.written ≡ cs ++ w.written
      → w.tried ≤ client
      → IsOrdered username w (
          with_response is_set connects replies client
            (take_reply is_set connects replies reply client (create_session username) v))
  unfolding with_response take_reply
  reply-creates unwritten client username w v cs h e l = record {
    cancels = cs;
    creates = [];
    all = h;
    written = e;
    once = inl refl;
    answered = λ c r k. ground arith;
  }
  reply-creates unread client username w v cs h e l =
      sent-IsOrdered client username w v cs (err io) h e l (λ c x k. ground arith)
  reply-creates garbled client username w v cs h e l =
      sent-IsOrdered client username w v cs (err protocol) h e l (λ c x k. ground arith)
  reply-creates (answer a) client username w v cs h e l =
      sent-IsOrdered client username w v cs (ok (client, from_greetd a)) h e l
        (λ c x k. ground arith)

  -- Beginning after nothing but cancellations.
  created-IsOrdered :
      (b : Bool) (username : Text) (w v : Wire)
      → IsCancelling w v
      → w.tried ≤ v.tried
      → IsOrdered username w (
          create_on is_set connects replies
            (record v { tried = suc v.tried }, if b then ok v.tried else err io)
            username)
  unfolding create_on exchange
  created-IsOrdered true username w v h l =
      reply-creates (replies v.begun) v.tried username w
        (record v { tried = suc v.tried; begun = suc v.begun }) h.cancels h.all h.written l
  created-IsOrdered false username w v h l = record {
    cancels = h.cancels;
    creates = [];
    all = h.all;
    written = h.written;
    once = inl refl;
    answered = λ c r k. ground arith;
  }

  begin-IsOrdered :
      (username : Text) (w v : Wire)
      → IsCancelling w v
      → w.tried ≤ v.tried
      → IsOrdered username w (begin_at is_set connects replies username v)
  unfolding begin_at connect_to
  begin-IsOrdered username w v h l = created-IsOrdered (connects v.tried) username w v h l

  -- A cancellation.
  reply-cancels :
      (reply : Reply) (client : ℕ) (w v : Wire)
      → IsCancelling w v
      → IsCancelling w (take_reply is_set connects replies reply client cancel_session v).0
  unfolding take_reply
  reply-cancels unwritten client w v h = h
  reply-cancels unread client w v h = cancelled-IsCancelling client w v h
  reply-cancels garbled client w v h = cancelled-IsCancelling client w v h
  reply-cancels (answer a) client w v h = cancelled-IsCancelling client w v h

  none-IsCancelling : (w : Wire) → IsCancelling w w
  none-IsCancelling w = record { cancels = []; all = tt; written = refl }

  exchange-IsCancelling :
      (client : ℕ) (w v : Wire)
      → IsCancelling w v
      → IsCancelling w (exchange is_set connects replies client cancel_session v).0
  unfolding exchange
  exchange-IsCancelling client w v h =
      reply-cancels (replies v.begun) client w (record v { begun = suc v.begun })
        (record { cancels = h.cancels; all = h.all; written = h.written })

  exchange-tried :
      (client : ℕ) (r : Request) (v : Wire)
      → (exchange is_set connects replies client r v).0.tried ≡ v.tried
  unfolding exchange
  exchange-tried client r v =
      reply-tried is_set connects replies (replies v.begun) client r
        (record v { begun = suc v.begun })

  stale-IsCancelling :
      (b : Bool) (w v : Wire)
      → IsCancelling w v
      → IsCancelling w (
          cancel_stale is_set connects replies
            (record v { tried = suc v.tried }, if b then ok v.tried else err io))
  unfolding cancel_stale
  stale-IsCancelling true w v h =
      exchange-IsCancelling v.tried w (record v { tried = suc v.tried })
        (record { cancels = h.cancels; all = h.all; written = h.written })
  stale-IsCancelling false w v h = record { cancels = h.cancels; all = h.all; written = h.written }

  stale-tried :
      (b : Bool) (v : Wire)
      → v.tried
        ≤ (cancel_stale is_set connects replies
            (record v { tried = suc v.tried }, if b then ok v.tried else err io)).tried
  unfolding cancel_stale
  stale-tried true v =
      omega (arith, exchange-tried v.tried cancel_session (record v { tried = suc v.tried }))
  stale-tried false v = omega arith

  recover-IsOrdered :
      (username : Text) (w v : Wire)
      → IsCancelling w v
      → w.tried ≤ v.tried
      → IsOrdered username w (recover_and_begin_at is_set connects replies username v)
  unfolding recover_and_begin_at connect_to
  recover-IsOrdered username w v h l =
      begin-IsOrdered username w _ (stale-IsCancelling (connects v.tried) w v h)
        (omega (arith, l, stale-tried (connects v.tried) v))

  restarted-IsOrdered :
      (client : Option ℕ) (username : Text) (w : Wire)
      → IsOrdered username w (restart_at is_set connects replies client username w)
  unfolding restart_at cancel cancel_on
  restarted-IsOrdered none username w =
      recover-IsOrdered username w w (none-IsCancelling w) (omega arith)
  restarted-IsOrdered (some client) username w =
      let v = (exchange is_set connects replies client cancel_session w).0 in
      let h = exchange-IsCancelling client w w (none-IsCancelling w) in
      let l = exchange-tried client cancel_session w in
      either _ (begin-IsOrdered username w v h (omega (arith, l)))
        (recover-IsOrdered username w v h (omega (arith, l)))

  -- What starting anew writes, exactly and in order. With a session, its cancellation is written on
  -- its connection; if greetd answers it with a success, a session is created for the user on a new
  -- connection. In every other case, and without a session, a stale session is cancelled on a new
  -- connection, if there is one, and whatever comes of it the session is created on another. A
  -- request is missing only if there is no connection or it cannot be written. If there is an
  -- answer, the request to create was written on the connection that the result names.
  pub restart_at-IsOrdered :
      (client : Option ℕ) (username : Text) (w : Wire)
      → ((restart_at is_set connects replies client username w).0.written
          ≡ expected is_set connects replies client username w ++ w.written)
        × IsOrdered username w (restart_at is_set connects replies client username w)
  restart_at-IsOrdered client username w = (
    restart_at-written is_set connects replies client username w,
    restarted-IsOrdered client username w,
  )
