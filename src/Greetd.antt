-- ===== src/Greetd.antt =====
-- src/auth.rs: the requests and answers that the greeter exchanges with greetd.
pub mod Written
pub mod Requests
use genkan.Prelude.{
  ℕ, suc, if◌then◌else◌, Bool, true, false, Option, none, some, List, [], ◌∷◌, ◌++◌, Text,
}

-- `greetd_ipc::Request`, of the crate greetd_ipc.
pub data Request : Type 0 where
  create_session : Text → Request
  post_auth_message_response : Option Text → Request
  start_session : List Text → List Text → Request
  cancel_session : Request

pub data AuthMessageType : Type 0 where
  visible secret info error : AuthMessageType

pub data ErrorType : Type 0 where
  error auth_error : ErrorType

-- `greetd_ipc::Response`.
pub data GreetdResponse : Type 0 where
  success : GreetdResponse
  error : ErrorType → Text → GreetdResponse
  auth_message : AuthMessageType → Text → GreetdResponse

pub data Response : Type 0 where
  success : Response
  error : Bool → Text → Response
  prompt message : Bool → Text → Response

is_auth_error : ErrorType → Bool
is_auth_error auth_error = true
is_auth_error _ = false

normalized_message : AuthMessageType → Text → Response
normalized_message visible text = prompt false text
normalized_message secret text = prompt true text
normalized_message info text = message false text
normalized_message AuthMessageType.error text = message true text

unfoldable pub from_greetd : GreetdResponse → Response
unfolding is_auth_error normalized_message
from_greetd GreetdResponse.success = Response.success
from_greetd (GreetdResponse.error kind description) =
    Response.error (is_auth_error kind) description
from_greetd (auth_message kind text) = normalized_message kind text

pub data AuthError : Type 0 where
  missing_socket io protocol unexpected_cancellation_response : AuthError
  cancellation_rejected : Text → AuthError

pub data Result {ℓ} (A : Type ℓ) : Type ℓ where
  ok : A → Result A
  err : AuthError → Result A

-- What the process has done on greetd's socket: how many times it tried to connect and how many
-- exchanges it began, and the requests written, the newest first, each with the number of its
-- connection.
pub record Wire : Type 0 where
  pub tried : ℕ
  pub begun : ℕ
  pub written : List (ℕ × Request)

-- What comes of an exchange: the request cannot be written, no answer can be read, or there is one.
pub data Reply : Type 0 where
  unwritten unread garbled : Reply
  answer : GreetdResponse → Reply

abbrev pub Call {ℓ} : Type ℓ → Type ℓ
Call A = Wire × Result A

-- The environment of the process and greetd: whether GREETD_SOCK is set, which attempts to connect
-- succeed, and what comes of each exchange.
module _ (is_set : Bool) (connects : ℕ → Bool) (replies : ℕ → Reply) where
  -- `connect_to`. A client is the number of its connection.
  unfoldable pub connect_to : Wire → Call ℕ
  connect_to w = (record w { tried = suc w.tried }, if connects w.tried then ok w.tried else err io)

  unfoldable pub take_reply : Reply → ℕ → Request → Wire → Call Response
  take_reply unwritten client request w = (w, err io)
  take_reply unread client request w =
      (record w { written = (client, request) ∷ w.written }, err io)
  take_reply garbled client request w =
      (record w { written = (client, request) ∷ w.written }, err protocol)
  take_reply (answer response) client request w =
      (record w { written = (client, request) ∷ w.written }, ok (from_greetd response))

  unfoldable pub exchange : ℕ → Request → Wire → Call Response
  unfolding take_reply
  exchange client request w =
      take_reply (replies w.begun) client request (record w { begun = suc w.begun })

  unfoldable pub with_response : ℕ → Call Response → Call (ℕ × Response)
  with_response client (w, ok response) = (w, ok (client, response))
  with_response client (w, err e) = (w, err e)

  unfoldable pub create_on : Call ℕ → Text → Call (ℕ × Response)
  unfolding exchange with_response
  create_on (w, ok client) username =
      with_response client (exchange client (create_session username) w)
  create_on (w, err e) username = (w, err e)

  unfoldable pub begin_at : Text → Wire → Call (ℕ × Response)
  unfolding connect_to create_on
  begin_at username w = create_on (connect_to w) username

  -- A stale session is cancelled if there is a connection, whatever is answered.
  unfoldable pub cancel_stale : Call ℕ → Wire
  unfolding exchange
  cancel_stale (w, ok client) = (exchange client cancel_session w).0
  cancel_stale (w, err e) = w

  unfoldable pub recover_and_begin_at : Text → Wire → Call (ℕ × Response)
  unfolding begin_at cancel_stale
  recover_and_begin_at username w = begin_at username (cancel_stale (connect_to w))

  -- What an answer to a cancellation means.
  unfoldable pub cancellation : Result Response → Result (Unit {0})
  cancellation (err e) = err e
  cancellation (ok Response.success) = ok tt
  cancellation (ok (Response.error authentication description)) =
      err (cancellation_rejected description)
  cancellation (ok (prompt hidden text)) = err unexpected_cancellation_response
  cancellation (ok (message is_error text)) = err unexpected_cancellation_response

  -- `Client::connect`, by the socket that the environment names.
  unfoldable pub connect : Wire → Call ℕ
  unfolding connect_to
  connect w = if is_set then connect_to w else (w, err missing_socket)

  unfoldable pub cancel_on : Call ℕ → Call (Unit {0})
  unfolding exchange cancellation
  cancel_on (w, ok client) = let (v, r) = exchange client cancel_session w in (v, cancellation r)
  cancel_on (w, err e) = (w, err e)

  unfoldable pub cancel : Option ℕ → Wire → Call (Unit {0})
  unfolding cancel_on connect
  cancel (some client) w = cancel_on (w, ok client)
  cancel none w = cancel_on (connect w)

  abbrev pub is_ok : Result (Unit {0}) → Bool
  is_ok (ok _) = true
  is_ok (err _) = false

  unfoldable pub restart_at : Option ℕ → Text → Wire → Call (ℕ × Response)
  unfolding cancel begin_at recover_and_begin_at
  restart_at none username w = recover_and_begin_at username w
  restart_at (some client) username w =
      let (v, r) = cancel (some client) w in
      if is_ok r then begin_at username v else recover_and_begin_at username v

  -- `begin`, `recover_and_begin` and `restart`.
  unfoldable pub begin : Text → Wire → Call (ℕ × Response)
  unfolding begin_at
  begin username w = if is_set then begin_at username w else (w, err missing_socket)

  unfoldable pub recover_and_begin : Text → Wire → Call (ℕ × Response)
  unfolding recover_and_begin_at
  recover_and_begin username w =
      if is_set then recover_and_begin_at username w else (w, err missing_socket)

  unfoldable pub restart : Option ℕ → Text → Wire → Call (ℕ × Response)
  unfolding restart_at
  restart client username w =
      if is_set then restart_at client username w else (w, err missing_socket)
