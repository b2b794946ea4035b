-- ===== src/Greeter/Update/Answers.antt =====
-- What handle_auth_result of src/app/auth_flow.rs asks for.
use genkan.Prelude.{
  ℕ, Bool, true, false, Option, none, some, [], ◌∷◌, codes, subst, ==-self, ◌≡◌, refl, ap, sym,
  arith, Bool-cases, inl, inr,
}
use genkan.Conversation.{Conversation, accepts, receive, respond}
use genkan.Greetd.{Request, post_auth_message_response, start_session, Response}
use genkan.Greeter.State.{
  Session, environment, Phase, failed, starting_session, Closing, waiting_for_client,
  waiting_for_user_selection_cancellation, cancelling, dispatching, App, Outcome, ok, err, Message,
  auth_result, Target, flow, exchange,
}
use genkan.Greeter.Focus.{focus_input}
use genkan.Greeter.Flow.{
  AuthEffect, prompt, acknowledge, start, failure, AuthTransition, transition, effect_transition,
  conversation_response, is_starting, is_success, apply_auth_transition, set_auth_notice,
  exchange_or_fail, exchange_on, perform_effect, take_transition, handle_auth_response,
  handle_result, handle_auth_result, take_result, replaced_client, awaiting_client,
}
use genkan.Greeter.Guards.{allowed, closing_allows}
use genkan.Greeter.Update.Tasks.{IsQuiet, none-IsQuiet, set_focus-IsQuiet, fail-IsQuiet}
use genkan.Greeter.Update.Effects.{Effects, quiet, started, ended, reports_success, brought_client}

exchange-IsQuiet :
    (c : Option ℕ) (r : Request) (a : App)
    → ((n : ℕ) → IsQuiet (exchange n r a.conversation.attempt ∷ []))
    → IsQuiet (exchange_on c r a).1
unfolding exchange_on
exchange-IsQuiet none r a h = fail-IsQuiet (codes "Lost connection to greetd") a
exchange-IsQuiet (some c) r a h = h c

-- An effect that starts the session or ends the greeter.
abbrev is_outward : AuthEffect → Bool
is_outward (start cmd env) = true
is_outward AuthEffect.exit = true
is_outward _ = false

abbrev leads_outward : Option AuthTransition → Bool
leads_outward none = false
leads_outward (some t) = is_outward t.effect

perform-IsQuiet : (e : AuthEffect) (a : App) → is_outward e ≡ false → IsQuiet (perform_effect e a).1
unfolding perform_effect exchange_or_fail focus_input
perform-IsQuiet (prompt secret m) a h =
    set_focus-IsQuiet Target.authentication_input (record a { authentication_layout = some flow })
perform-IsQuiet (acknowledge error m) a h =
    exchange-IsQuiet a.client (post_auth_message_response none) (set_auth_notice m error a)
      (λ n. ground arith)
perform-IsQuiet (failure m) a h = fail-IsQuiet m a
perform-IsQuiet (start cmd env) a h = ground arith
perform-IsQuiet AuthEffect.exit a h = ground arith

take-IsQuiet :
    (t : Option AuthTransition) (a : App)
    → leads_outward t ≡ false
    → IsQuiet (take_transition t a).1
unfolding take_transition
take-IsQuiet none a h = none-IsQuiet
take-IsQuiet (some t) a h = perform-IsQuiet t.effect (apply_auth_transition t a) h

stays :
    (r : Response) (c : Conversation) (p : Phase) (n : ℕ) (s : Option Session)
    → is_success r ≡ false
    → leads_outward (transition c p n r s).1 ≡ false
unfolding transition conversation_response effect_transition receive accepts respond
stays r c p n s h = ground arith

-- What a success of the current attempt leads to.
abbrev success_step : Bool → Phase → Option Session → AuthTransition
success_step true p s = record { phase = p; effect = AuthEffect.exit }
success_step false p none = record {
  phase = failed;
  effect = failure (codes "No valid Wayland session is selected");
}
success_step false p (some session) = record {
  phase = starting_session;
  effect = start session.command (environment session);
}

success-step :
    (c : Conversation) (p : Phase) (n : ℕ) (s : Option Session)
    → accepts n c ≡ true
    → (transition c p n Response.success s).1 ≡ some (success_step (is_starting p) p s)
unfolding transition conversation_response effect_transition receive accepts respond
success-step c p n none h = ground arith
success-step c p n (some session) h = ground arith

module _ (m : Message) (o : App) (succeeded : reports_success m o ≡ true)
    (free : o.closing ≡ none) where
  start_effects :
      (k : Option ℕ) (session : Session) (a : App)
      → replaced_client (brought_client m) o.client ≡ k
      → o.selected_session ≡ some session
      → a.conversation.attempt ≡ o.conversation.attempt
      → a.phase ≡ starting_session
      → Effects m o (exchange_on k (start_session session.command (environment session)) a)
  unfolding exchange_on
  start_effects none session a hk hs hn hp =
      quiet (fail-IsQuiet (codes "Lost connection to greetd") a)
  start_effects (some client) session a hk hs hn hp = started (record {
    session = session;
    client = client;
    succeeded = succeeded;
    not_closing = free;
    selected = hs;
    connected = hk;
    asked =
        ap (λ n. exchange client (start_session session.command (environment session)) n ∷ []) hn;
    phase = hp;
  })

  step_effects :
      (b : Bool) (s : Option Session) (a : App)
      → is_starting o.phase ≡ b
      → replaced_client (brought_client m) o.client ≡ a.client
      → o.selected_session ≡ s
      → a.conversation.attempt ≡ o.conversation.attempt
      → Effects m o (take_transition (some (success_step b o.phase s)) a)
  unfolding take_transition perform_effect exchange_or_fail apply_auth_transition
  step_effects true s a hb hk hs hn =
      ended (record { succeeded = succeeded; not_closing = free; starting = hb; asked = refl })
  step_effects false none a hb hk hs hn = quiet (
      fail-IsQuiet (codes "No valid Wayland session is selected")
        (apply_auth_transition (success_step false o.phase none) a))
  step_effects false (some session) a hb hk hs hn =
      start_effects a.client session
        (apply_auth_transition (success_step false o.phase (some session)) a) hk hs hn refl

transition-attempt :
    (c : Conversation) (p : Phase) (n : ℕ) (r : Response) (s : Option Session)
    → (transition c p n r s).0.attempt ≡ c.attempt
unfolding transition receive respond
transition-attempt c p n r s = ground arith

abbrev after : Option ℕ → ℕ → Conversation → App → App
after brought n c a = record a { client = replaced_client brought a.client; conversation = c }

success_effects :
    (n : ℕ) (brought : Option ℕ) (a : App)
    → accepts n a.conversation ≡ true
    → a.closing ≡ none
    → Effects
        (auth_result n (ok (brought, Response.success)))
        a
        (handle_result (ok (brought, Response.success)) a)
unfolding handle_result handle_auth_response accepts
success_effects n brought a h free =
    let t =
      transition a.conversation a.phase a.conversation.attempt Response.success
        a.selected_session in
    subst
      (λ x. Effects (auth_result n (ok (brought, Response.success))) a (
        take_transition x
          (record a { client = replaced_client brought a.client; conversation = t.0 })))
      (sym (
        success-step a.conversation a.phase a.conversation.attempt a.selected_session
          (==-self a.conversation.attempt)))
      (step_effects (auth_result n (ok (brought, Response.success))) a h free (is_starting a.phase)
        a.selected_session
        (record a { client = replaced_client brought a.client; conversation = t.0 }) refl refl refl
        (transition-attempt a.conversation a.phase a.conversation.attempt Response.success
          a.selected_session))

response-IsQuiet :
    (r : Response) (a : App) → is_success r ≡ false → IsQuiet (handle_auth_response r a).1
unfolding handle_auth_response
response-IsQuiet r a h =
    let t = transition a.conversation a.phase a.conversation.attempt r a.selected_session in
    take-IsQuiet t.1 (record a { conversation = t.0 })
      (stays r a.conversation a.phase a.conversation.attempt a.selected_session h)

result_effects :
    (n : ℕ) (r : Outcome (Option ℕ × Response)) (a : App)
    → accepts n a.conversation ≡ true
    → a.closing ≡ none
    → Effects (auth_result n r) a (handle_result r a)
unfolding handle_result
result_effects n (err e) a h free = quiet (fail-IsQuiet e a)
result_effects n (ok (brought, Response.success)) a h free = success_effects n brought a h free
result_effects n (ok (brought, Response.prompt secret m)) a h free = quiet (
    response-IsQuiet (Response.prompt secret m)
      (record a { client = replaced_client brought a.client }) refl)
result_effects n (ok (brought, Response.message error m)) a h free = quiet (
    response-IsQuiet (Response.message error m)
      (record a { client = replaced_client brought a.client }) refl)
result_effects n (ok (brought, Response.error auth m)) a h free = quiet (
    response-IsQuiet (Response.error auth m)
      (record a { client = replaced_client brought a.client }) refl)

taken_effects :
    (c : Option Closing) (n : ℕ) (r : Outcome (Option ℕ × Response)) (a : App)
    → a.closing ≡ c
    → allowed a (auth_result n r) ≡ true
    → accepts n a.conversation ≡ true
    → Effects (auth_result n r) a (take_result (awaiting_client c) r a)
unfolding take_result allowed closing_allows
taken_effects none n r a e h k = result_effects n r a k e
taken_effects (some (waiting_for_client w)) n r a e h k = quiet (ground arith)
taken_effects (some (waiting_for_user_selection_cancellation w)) n r a e h k = ground arith
taken_effects (some (cancelling w)) n r a e h k = ground arith
taken_effects (some (dispatching w)) n r a e h k = ground arith

pub auth_effects :
    (n : ℕ) (r : Outcome (Option ℕ × Response)) (a : App)
    → allowed a (auth_result n r) ≡ true
    → Effects (auth_result n r) a (handle_auth_result n r a)
unfolding handle_auth_result
auth_effects n r a h = elim (Bool-cases (accepts n a.conversation)) [
  | inl e ↦ rw e (taken_effects a.closing n r a refl h e)
  | inr e ↦ rw e (quiet none-IsQuiet)
]
