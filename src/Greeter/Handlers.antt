-- ===== src/Greeter/Handlers.antt =====
-- What `App::update` of src/app/mod.rs does for the messages that it does not pass on to itself.
use genkan.Prelude.{
  ℕ, Bool, true, false, ◌&&◌, not, Option, none, some, [], ◌∷◌, ◌++◌, Text, codes, text_eq, ◌==◌,
  is_none, if◌then◌else◌,
}
use genkan.Conversation.{
  Conversation, is_waiting, begin_attempt, accepts, invalidate_attempt, clear_response,
  bounded_text, set_notice,
}
use genkan.Conversation as conversation
use genkan.Greetd.{post_auth_message_response}
use genkan.Greeter.State.{
  Action, suspend, reboot, power_off, Account, Session, Phase, cancelling_for_user_selection,
  selecting_user, user_selection_cancellation_failed, creating_session, authenticating, Closing,
  waiting_for_client, waiting_for_user_selection_cancellation, cancelling, dispatching, PowerState,
  idle, confirming, executing, Target, App, Outcome, ok, err, Task, exchange, cancel_for_close,
  cancel_for_user_selection, close_window, execute_power, Step, action_eq, is_confirming,
  close_session_menu, can_request_power, can_select_session, can_select_account,
}
use genkan.Greeter.Focus.{
  set_focus, focus_first, focus_input, enter_power_dialog, leave_power_dialog,
}
use genkan.Greeter.Flow.{fail}
use genkan.Greeter.Operations.{notify, select_account, finish_preview_user_selection}

abbrev pub cancellation_window : Option Closing → Option ℕ
cancellation_window (some (waiting_for_user_selection_cancellation w)) = some w
cancellation_window _ = none

abbrev pub is_cancelling : Phase → Bool
is_cancelling cancelling_for_user_selection = true
is_cancelling _ = false

-- Outside of closing, in the phase of cancelling.
unfoldable pub selection_cancelled : Outcome (Unit {0}) → App → Step
selection_cancelled (ok _) a = set_focus (Target.account 0) (
    notify (codes "Select a user")
      (record a { phase = selecting_user; selection_session_cancelled = true }))
selection_cancelled (err error) a = set_focus Target.retry_account_selection (record a {
  phase = user_selection_cancellation_failed;
  conversation = set_notice error true a.conversation;
})

-- By the window that waits for the cancellation.
unfoldable pub take_cancelled : Option ℕ → Outcome (Unit {0}) → App → Step
unfolding selection_cancelled
take_cancelled (some window) result a =
    (record a { closing = some (dispatching window) }, close_window window ∷ [])
take_cancelled none result a =
    if is_cancelling a.phase then selection_cancelled result a else (a, [])

unfoldable pub cancelled_for_selection : ℕ → Outcome (Unit {0}) → App → Step
unfolding take_cancelled
cancelled_for_selection attempt result a =
    if not (accepts attempt a.conversation)
    then (a, [])
    else take_cancelled (cancellation_window a.closing) result a

unfoldable pub selection_slow : ℕ → App → Step
selection_slow attempt a =
    if accepts attempt a.conversation && is_cancelling a.phase
    then (notify (codes "Still changing user…") a, [])
    else (a, [])

abbrev pub is_cancellation_failed : Phase → Bool
is_cancellation_failed user_selection_cancellation_failed = true
is_cancellation_failed _ = false

unfoldable pub retry_cancellation : App → Step
retry_cancellation a =
    let (b, widget_tasks) = focus_first (
      notify (codes "Changing user…") (record a {
        conversation = begin_attempt a.conversation;
        phase = cancelling_for_user_selection;
      })) in
    if not (is_cancellation_failed a.phase)
    then (a, [])
    else if a.preview
    then finish_preview_user_selection b
    else (b, cancel_for_user_selection none b.conversation.attempt ∷ widget_tasks)

abbrev pub is_creating : Phase → Bool
is_creating creating_session = true
is_creating _ = false

-- The response that the conversation gives is sent on the client.
unfoldable pub send_answer : ℕ → Option (ℕ × Text) → App → Step
send_answer client none a = (a, [])
send_answer client (some (attempt, response)) a = (
  record a { phase = authenticating },
  exchange client (post_auth_message_response (some response)) attempt ∷ [],
)

unfoldable pub send_on : Option ℕ → App → Step
unfolding send_answer
send_on none a = fail (codes "Lost connection to greetd") a
send_on (some client) a =
    let (c, answer) = conversation.submit a.conversation in
    send_answer client answer (record a { conversation = c })

unfoldable pub submit_response : App → Step
unfolding send_on
submit_response a =
    let shown = record a {
      conversation = clear_response a.conversation;
      preview_message = some (codes "Preview mode: credentials were not sent");
    } in
    if not (is_waiting a.conversation.status)
    then (a, [])
    else if a.preview
    then focus_input shown
    else send_on a.client a

unfoldable pub request_power : Action → App → Step
request_power action a =
    if can_request_power a
    then enter_power_dialog (record a {
      focus_target = some (Target.power action);
      power_state = confirming action;
      power_message = none;
    })
    else (a, [])

unfoldable pub leave_confirmation : App → Step
leave_confirmation a =
    if is_confirming a.power_state
    then leave_power_dialog (record a { power_state = idle })
    else (a, [])

-- `Action::label` in lower case.
abbrev pub label : Action → Text
label suspend = codes "sleep"
label reboot = codes "restart"
label power_off = codes "shut down"

abbrev pub confirms : Action → PowerState → Bool
confirms action (confirming expected) = action_eq action expected
confirms action _ = false

unfoldable pub confirm : Action → App → Step
confirm action a =
    let shown = record a {
      power_state = idle;
      power_message = some (codes "Preview: " ++ (label action ++ codes " was not requested"));
      power_message_is_error = false;
    } in
    if not (confirms action a.power_state)
    then (a, [])
    else if a.preview
    then leave_power_dialog shown
    else (
      record a { power_state = executing action; focus_target = none },
      execute_power action ∷ [],
    )

abbrev pub is_suspending : PowerState → Bool
is_suspending (executing suspend) = true
is_suspending _ = false

unfoldable pub power_done : Outcome (Unit {0}) → App → Step
power_done (ok _) a =
    if is_suspending a.power_state
    then leave_power_dialog (record a { power_state = idle; power_message = none })
    else (a, [])
power_done (err error) a = leave_power_dialog (record a {
  power_state = idle;
  power_message = some (bounded_text error);
  power_message_is_error = true;
})

-- The attempt is given up, and the session cancelled on the client's connection or on a new one.
unfoldable pub cancel_and_close : ℕ → App → Step
cancel_and_close window a = (
  record a {
    conversation = invalidate_attempt a.conversation;
    closing = some (cancelling window);
    client = none;
  },
  cancel_for_close a.client window ∷ Task.close_timeout window ∷ [],
)

-- `CloseRequested`.
unfoldable pub request_close : ℕ → App → Step
unfolding cancel_and_close
request_close window a =
    if a.preview
    then (record a { conversation = invalidate_attempt a.conversation }, close_window window ∷ [])
    else if a.selection_session_cancelled
    then (record a { closing = some (dispatching window) }, close_window window ∷ [])
    else if is_cancelling a.phase
    then (
      record a { closing = some (waiting_for_user_selection_cancellation window) },
      Task.close_timeout window ∷ [],
    )
    else if is_none a.client && is_creating a.phase
    then (record a { closing = some (waiting_for_client window) }, Task.close_timeout window ∷ [])
    else cancel_and_close window a

-- `Closing::is_cleaning`.
unfoldable pub is_cleaning : Option Closing → ℕ → Bool
is_cleaning (some (waiting_for_client id)) window = id == window
is_cleaning (some (waiting_for_user_selection_cancellation id)) window = id == window
is_cleaning (some (cancelling id)) window = id == window
is_cleaning _ window = false

unfoldable pub session_is_cancelled : ℕ → App → Step
session_is_cancelled window a =
    if is_cleaning a.closing window
    then (record a { closing = some (dispatching window) }, close_window window ∷ [])
    else (a, [])

unfoldable pub close_times_out : ℕ → App → Step
close_times_out window a =
    if is_cleaning a.closing window
    then (
      record a {
        conversation = invalidate_attempt a.conversation;
        closing = some (dispatching window);
      },
      close_window window ∷ [],
    )
    else (a, [])

unfoldable pub choose_account : Account → App → Step
choose_account account a =
    if can_select_account a && not (text_eq account.username a.username)
    then select_account account a
    else (a, [])

unfoldable pub choose_session : Session → App → Step
choose_session session a =
    if can_select_session a
    then set_focus Target.session
        (record (close_session_menu a) { selected_session = some session })
    else (a, [])

unfoldable pub open_session_menu : App → Step
open_session_menu a =
    if can_select_session a
    then set_focus Target.session (record a { session_menu_open = true })
    else (a, [])

unfoldable pub edit_input : Text → App → Step
edit_input value a =
    let (c, changed) = conversation.update_input value a.conversation in
    if changed
    then (record a { conversation = c; focus_target = some Target.authentication_input }, [])
    else (a, [])
