-- ===== src/Greeter/Update/Effects.antt =====
-- What an update of src/app/mod.rs may ask for beyond the greeter's own work, and when.
use genkan.Prelude.{ℕ, Bool, true, false, Option, none, some, [], ◌∷◌, ◌≡◌}
use genkan.Conversation.{waiting, submitting, accepts}
use genkan.Greetd.{Response, post_auth_message_response, start_session}
use genkan.Greeter.State.{
  Action, Session, environment, authenticating, starting_session, confirming, executing, App, ok,
  Message, auth_result, Task, exchange, execute_power, Step, is_idle,
}
use genkan.Greeter.Flow.{is_starting, replaced_client}
use genkan.Greeter.Update.Tasks.{IsQuiet}

-- A result of greetd that is a success of the current attempt.
abbrev pub reports_success : Message → App → Bool
reports_success (auth_result attempt (ok (client, Response.success))) a =
    accepts attempt a.conversation
reports_success _ a = false

-- The client that such a result brings.
abbrev pub brought_client : Message → Option ℕ
brought_client (auth_result attempt (ok (client, Response.success))) = client
brought_client _ = none

-- The session that is selected is started.
pub record IsStarted (m : Message) (a : App) (s : Step) : Type 0 where
  pub session : Session
  pub client : ℕ
  pub succeeded : reports_success m a ≡ true
  pub not_closing : a.closing ≡ none
  pub selected : a.selected_session ≡ some session
  pub connected : replaced_client (brought_client m) a.client ≡ some client
  pub asked :
      s.1
      ≡ exchange client (start_session session.command (environment session)) a.conversation.attempt
        ∷ []
  pub phase : s.0.phase ≡ starting_session

-- The greeter ends.
pub record IsEnded (m : Message) (a : App) (s : Step) : Type 0 where
  pub succeeded : reports_success m a ≡ true
  pub not_closing : a.closing ≡ none
  pub starting : is_starting a.phase ≡ true
  pub asked : s.1 ≡ Task.exit ∷ []

-- The input is sent as the answer to the prompt.
pub record IsAnswered (a : App) (s : Step) : Type 0 where
  pub client : ℕ
  pub connected : a.client ≡ some client
  pub not_closing : a.closing ≡ none
  pub idle : is_idle a.power_state ≡ true
  pub waits : a.conversation.status ≡ waiting
  pub real : a.preview ≡ false
  pub asked :
      s.1
      ≡ exchange client
          (post_auth_message_response (some a.conversation.input))
          a.conversation.attempt
        ∷ []
  pub phase : s.0.phase ≡ authenticating
  pub status : s.0.conversation.status ≡ submitting
  pub cleared : s.0.conversation.input ≡ []

-- The action that is being confirmed is carried out.
pub record IsPowered (a : App) (s : Step) : Type 0 where
  pub action : Action
  pub not_closing : a.closing ≡ none
  pub asked_for : a.power_state ≡ confirming action
  pub real : a.preview ≡ false
  pub asked : s.1 ≡ execute_power action ∷ []
  pub state : s.0.power_state ≡ executing action

pub data Effects (m : Message) (a : App) (s : Step) : Type 0 where
  quiet : IsQuiet s.1 → Effects m a s
  started : IsStarted m a s → Effects m a s
  ended : IsEnded m a s → Effects m a s
  answered : IsAnswered a s → Effects m a s
  powered : IsPowered a s → Effects m a s
