-- ===== src/Examples/Locker.antt =====
-- The presentation of src/locker/mod.rs with a client that delivers events from a list.
use genkan.Prelude.{
  ℕ, zero, suc, ◌*◌, is_some, false, true, false, ◌&&◌, ◌||◌, Option, none, some, List, [], ◌∷◌,
  codes, ◌≡◌, refl, ◌∙◌, ◌⊎◌, any, arith,
}
use genkan.SessionLock.Frames.{Input}
use genkan.Conversation.{Conversation, waiting}
use genkan.Locker.Services.{Event, prompt, success, WallpaperRefresh, Services}
use genkan.Locker.Presenter.{
  max_auth_events_per_refresh, Locker, new, receive_auth, retry, cancel_attempt,
}
use genkan.Locker.Dialogue.{input}
use genkan.Locker.Calls.{Call, latest, confirm, authorize, typed, serve, run}
use genkan.Locker.Pairing.{IsPaired}
use genkan.Locker.Histories.{run-IsPaired}
use genkan.Locker.Authorization.{is_success, offered, delivered, receive_auth-authorized}
use genkan.Locker.Grants.{HasSucceeded, receive_latest-authorized, serve-authorized}
use genkan.Locker.Replies.{
  IsAnswered, IsRestarted, IsRetried, IsReplaced, is_retried, submit_reaches_client, restarts,
}

abbrev pub next_of : List Event → Option Event × List Event
next_of [] = (none, [])
next_of (e ∷ es) = (some e, es)

-- As many zero bytes.
unfoldable pub blank : ℕ → List ℕ
blank zero = []
blank (suc n) = 0 ∷ blank n

-- A response is followed by a success.
abbrev pub services : Services
services = record {
  Client = List Event;
  try_receive = next_of;
  begin = λ c. (true, c);
  retry = λ c. (false, c);
  respond = λ id response c. (true, success ∷ []);
  start = λ n. some (prompt n true (codes "Password: ") ∷ []);
  Wallpaper = ℕ;
  receive_wallpaper = λ w. (WallpaperRefresh.unchanged, w);
  wallpaper_frame = λ w. none;
  render_authentication_overlay = λ c confirmed page. blank (1500 * 1200 * 4);
}

abbrev asking : Conversation
asking = record {
  input = codes "secret";
  prompt = codes "Password";
  message = none;
  message_is_error = false;
  secret = true;
  status = waiting;
  attempt = 2;
}

abbrev typing : Locker services
typing = record {
  wallpaper = 0;
  conversation = asking;
  auth = some (2, success ∷ []);
  prompt_id = some 7;
  confirmed = true;
  authorized = false;
  background = none;
  overlay = none;
  frame = none;
  instruction_page = 0;
  started = 0;
  cancelled = [];
}

typing-IsPaired : IsPaired services typing
typing-IsPaired = record {
  same_attempt = refl;
  asked = λ _. refl;
  served = λ e. ground (arith);
  confirmed = λ _. refl;
}

abbrev calls : List Call
calls =
    confirm
    ∷ latest
    ∷ typed (Input.text (codes "secret"))
    ∷ typed Input.submit
    ∷ latest
    ∷ authorize
    ∷ []

run-IsPaired_example :
    IsPaired services
      (run services calls (new services (prompt 1 true (codes "Password: ") ∷ []) 0))
run-IsPaired_example = run-IsPaired services calls (prompt 1 true (codes "Password: ") ∷ []) 0

receive_auth-authorized_example :
    (receive_auth services typing).1.authorized
    ≡ (true
        && any is_success (offered services max_auth_events_per_refresh (some (2, success ∷ []))))
      || false
receive_auth-authorized_example = receive_auth-authorized services typing typing-IsPaired

success_authorizes : (serve services latest typing).authorized ≡ true
unfolding serve offered delivered
success_authorizes =
    receive_latest-authorized services typing
    ∙ receive_auth-authorized services typing typing-IsPaired

serve-authorized_example : (false ≡ true) ⊎ ((latest ≡ latest) × HasSucceeded services typing)
serve-authorized_example =
    serve-authorized services latest typing typing-IsPaired success_authorizes

submit_reaches_client_example :
    (id : ℕ) × (a : ℕ) × (client : List Event) × (typing.prompt_id ≡ some id)
    × (typing.auth ≡ some (a, client))
    × ((input services typing Input.submit).0 ≡ true)
    × IsAnswered services id a client (codes "secret") (input services typing Input.submit).1
submit_reaches_client_example = submit_reaches_client services typing typing-IsPaired refl refl

restarts_example :
    (((retry services typing).0 ≡ true)
      × IsRestarted services typing (retry services typing).1
      × (IsRetried services typing (retry services typing).1
          ⊎ ((is_retried services typing.auth ≡ false)
              × IsReplaced services typing (retry services typing).1)))
    × (((is_some typing.auth ≡ true)
          × ((cancel_attempt services typing).0 ≡ true)
          × IsRestarted services typing (cancel_attempt services typing).1
          × IsReplaced services typing (cancel_attempt services typing).1)
        ⊎ ((is_some typing.auth ≡ false) × (cancel_attempt services typing ≡ (false, typing))))
restarts_example = restarts services typing
