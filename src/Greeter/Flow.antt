-- ===== src/Greeter/Flow.antt =====
-- src/app/auth_flow.rs: the answers of greetd, and what the greeter does then.
use genkan.Prelude.{
  ℕ, Bool, true, false, ◌&&◌, Option, none, some, List, [], ◌∷◌, Text, codes, not, if◌then◌else◌,
}
use genkan.Conversation.{
  Conversation, Response as ConversationResponse, Effect as ConversationEffect, authenticated,
  accepts, receive, invalidate_attempt, fail as conversation_fail, set_notice,
}
use genkan.Greetd.{Request, post_auth_message_response, start_session, Response}
use genkan.Greeter.State.{
  Session, environment, Phase, failed, waiting_for_input, starting_session, Closing,
  waiting_for_client, cancelling, flow, App, Outcome, ok, err, Task, exchange, cancel_for_close,
  Step,
}
use genkan.Greeter.Focus.{focus_first, focus_input, is_waiting_for_input}

pub data AuthEffect : Type 0 where
  prompt acknowledge : Bool → Text → AuthEffect
  start : List Text → List Text → AuthEffect
  exit : AuthEffect
  failure : Text → AuthEffect

pub record AuthTransition : Type 0 where
  pub phase : Phase
  pub effect : AuthEffect

-- `unwrap_or_default`.
abbrev text_of : Option Text → Text
text_of none = []
text_of (some t) = t

-- An answer of greetd as a response of the conversation.
unfoldable pub conversation_response : Response → ConversationResponse
conversation_response (Response.prompt secret message) = ConversationResponse.prompt secret message
conversation_response (Response.message error message) = ConversationResponse.notice error message
conversation_response Response.success = ConversationResponse.success
conversation_response (Response.error true description) =
    ConversationResponse.failure (codes "Authentication failed")
conversation_response (Response.error false description) = ConversationResponse.failure description

-- The `match` on the conversation's effect.
unfoldable pub effect_transition :
    ConversationEffect → Conversation → Phase → Option Session → AuthTransition
effect_transition ConversationEffect.prompt c phase session = record {
  phase = waiting_for_input;
  effect = AuthEffect.prompt c.secret c.prompt;
}
effect_transition ConversationEffect.notice c phase session = record {
  phase = phase;
  effect = acknowledge c.message_is_error (text_of c.message);
}
effect_transition authenticated c phase (some session) = record {
  phase = starting_session;
  effect = start session.command (environment session);
}
effect_transition authenticated c phase none = record {
  phase = failed;
  effect = failure (codes "No valid Wayland session is selected");
}
effect_transition ConversationEffect.failed c phase session = record {
  phase = failed;
  effect = failure (text_of c.message);
}

abbrev pub is_success : Response → Bool
is_success Response.success = true
is_success _ = false

abbrev pub is_starting : Phase → Bool
is_starting starting_session = true
is_starting _ = false

-- The conversation after it, and the transition.
unfoldable pub transition :
    Conversation → Phase → ℕ → Response → Option Session → Conversation × Option AuthTransition
unfolding conversation_response effect_transition
transition c phase attempt response session =
    let (c', effect) = receive attempt (conversation_response response) c in
    if not (accepts attempt c)
    then (c, none)
    else if is_starting phase && is_success response
    then (c, some (record { phase = phase; effect = AuthEffect.exit }))
    else (c', elim effect [ none ↦ none | some e ↦ some (effect_transition e c' phase session) ])

-- `App::fail`.
unfoldable pub fail : Text → App → Step
fail message a =
    focus_first
      (record a { phase = failed; conversation = conversation_fail message a.conversation })

unfoldable pub set_auth_notice : Text → Bool → App → App
set_auth_notice message error a = record a {
  conversation = set_notice message error a.conversation;
}

unfoldable pub apply_auth_transition : AuthTransition → App → App
apply_auth_transition t a = record a {
  phase = t.phase;
  authentication_layout = if is_waiting_for_input t.phase then a.authentication_layout else none;
}

unfoldable pub exchange_on : Option ℕ → Request → App → Step
unfolding fail
exchange_on none request a = fail (codes "Lost connection to greetd") a
exchange_on (some client) request a = (a, exchange client request a.conversation.attempt ∷ [])

-- An exchange on the client, if there is one.
unfoldable pub exchange_or_fail : Request → App → Step
unfolding exchange_on
exchange_or_fail request a = exchange_on a.client request a

-- The `match` on the effect of the transition.
unfoldable pub perform_effect : AuthEffect → App → Step
unfolding exchange_or_fail set_auth_notice fail
perform_effect (AuthEffect.prompt secret message) a =
    focus_input (record a { authentication_layout = some flow })
perform_effect (acknowledge error message) a =
    exchange_or_fail (post_auth_message_response none) (set_auth_notice message error a)
perform_effect AuthEffect.exit a = (a, Task.exit ∷ [])
perform_effect (start cmd env) a = exchange_or_fail (start_session cmd env) a
perform_effect (failure message) a = fail message a

-- The transition, if there is one.
unfoldable pub take_transition : Option AuthTransition → App → Step
unfolding apply_auth_transition perform_effect
take_transition none a = (a, [])
take_transition (some t) a = perform_effect t.effect (apply_auth_transition t a)

unfoldable pub handle_auth_response : Response → App → Step
unfolding transition take_transition
handle_auth_response response a =
    let (c, t) =
      transition a.conversation a.phase a.conversation.attempt response a.selected_session in
    take_transition t (record a { conversation = c })

-- The client that a result brings.
abbrev pub result_client : Outcome (Option ℕ × Response) → Option ℕ
result_client (ok (client, response)) = client
result_client (err e) = none

abbrev pub replaced_client : Option ℕ → Option ℕ → Option ℕ
replaced_client none old = old
replaced_client (some c) old = some c

abbrev pub awaiting_client : Option Closing → Option ℕ
awaiting_client (some (waiting_for_client window)) = some window
awaiting_client _ = none

-- `handle_auth_result`, for an attempt that is accepted and outside of closing.
unfoldable pub handle_result : Outcome (Option ℕ × Response) → App → Step
unfolding handle_auth_response fail
handle_result (ok (client, response)) a =
    handle_auth_response response (record a { client = replaced_client client a.client })
handle_result (err e) a = fail e a

-- An accepted result, by the window that waits for the client.
unfoldable pub take_result : Option ℕ → Outcome (Option ℕ × Response) → App → Step
unfolding handle_result
take_result none result a = handle_result result a
take_result (some window) result a = (
  record a { conversation = invalidate_attempt a.conversation; closing = some (cancelling window) },
  cancel_for_close (result_client result) window ∷ [],
)

unfoldable pub handle_auth_result : ℕ → Outcome (Option ℕ × Response) → App → Step
unfolding take_result
handle_auth_result attempt result a =
    if not (accepts attempt a.conversation)
    then (a, [])
    else take_result (awaiting_client a.closing) result a
