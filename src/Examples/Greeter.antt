-- ===== src/Examples/Greeter.antt =====
-- The greeter of src/app at concrete inputs.
use genkan.Prelude.{true, false, none, some, [], ◌∷◌, codes, ◌≡◌, refl, any, ◌++◌}
use genkan.Conversation.{waiting, receive, accepts, submit, respond as conversation_respond}
use genkan.Greetd.{Response}
use genkan.Greeter.Focus.{forward, focus_order, screen_targets, phase_targets, move_focus}
use genkan.Greeter.Focus.Order.{IsFocused, move_focus-IsFocused}
use genkan.Greeter.State.{
  reboot, power_off, can_change_user, can_select_session, can_request_power, Session,
  waiting_for_input, authenticating, starting_session, idle, confirming, suspend, App, ok, Message,
  auth_result, session_cancelled, close_requested, Target, activate, cancelling, dispatching,
  close_session_menu,
}
use genkan.Greeter.Update.{
  update, update_within, respond, navigate, activate_focus, activate_target, activate_confirm,
}
use genkan.Greeter.Handlers.{submit_response, send_on, send_answer, confirm}
use genkan.Greeter.Guards.{allowed, closing_allows, power_allows}
use genkan.Greeter.Flow.{
  handle_auth_result, take_result, handle_result, handle_auth_response, transition,
  conversation_response, effect_transition, take_transition, apply_auth_transition, perform_effect,
  exchange_or_fail, exchange_on,
}
use genkan.Greeter.Update.Tasks.{is_start, is_exit, is_answer, is_power}
use genkan.Greeter.Update.Effects.{IsStarted, IsEnded, IsAnswered, IsPowered}
use genkan.Greeter.Update.Requests.{
  update-IsStarted, update-IsEnded, update-IsAnswered, update-IsPowered,
}
use genkan.Greeter.Update.Windows.{IsClosing, closed_windows}
use genkan.Greeter.Update.Runs.{run, run-IsClosing, run-closes}
use genkan.Greeter.Update.Depth.{update_within-update}

abbrev hyprland : Session
hyprland = record {
  name = codes "Hyprland";
  command = codes "Hyprland" ∷ [];
  session_id = codes "hyprland";
  desktop_names = codes "Hyprland" ∷ [];
}

-- The user types the password.
abbrev asked : App
asked = record {
  username = codes "alice";
  display_name = codes "Alice";
  accounts = [];
  focus_target = some Target.submit;
  focus_before_modal = none;
  conversation = record {
    input = codes "secret";
    prompt = codes "Password";
    message = none;
    message_is_error = false;
    secret = true;
    status = waiting;
    attempt = 1;
  };
  session_message = none;
  power_message = none;
  power_message_is_error = false;
  preview_message = none;
  phase = waiting_for_input;
  client = some 0;
  sessions = hyprland ∷ [];
  selected_session = some hyprland;
  session_menu_open = false;
  pending_heic = false;
  power_state = idle;
  selection_session_cancelled = false;
  closing = none;
  preview = false;
  authentication_layout = none;
}

-- It was sent; the session is being started; suspending is asked for.
abbrev submitted : App
submitted = record asked { phase = authenticating }

abbrev starting : App
starting = record asked { phase = starting_session }

abbrev suspending : App
suspending = record asked { power_state = confirming suspend }

abbrev closing : App
closing = record asked { closing = some (cancelling 7) }

abbrev success : Message
success = auth_result 1 (ok (none, Response.success))

-- Enter on the button that submits, and on the one that confirms.
abbrev entered : Message
entered = Message.navigate_focus activate

abbrev confirmed : Message
confirmed = Message.navigate_modal activate

abbrev dialog : App
dialog = record suspending { focus_target = some Target.dialog_confirm }

starts : any is_start (update [] success submitted).1 ≡ true
unfolding update update_within respond allowed closing_allows power_allows handle_auth_result
    take_result handle_result handle_auth_response transition conversation_response
    effect_transition receive conversation_respond accepts take_transition apply_auth_transition
    perform_effect exchange_or_fail exchange_on
starts = refl

update-IsStarted_example : IsStarted success submitted (update [] success submitted)
update-IsStarted_example = update-IsStarted [] success submitted starts

ends : any is_exit (update [] success starting).1 ≡ true
unfolding update update_within respond allowed closing_allows power_allows handle_auth_result
    take_result handle_result handle_auth_response transition conversation_response
    effect_transition receive conversation_respond accepts take_transition apply_auth_transition
    perform_effect
ends = refl

update-IsEnded_example : IsEnded success starting (update [] success starting)
update-IsEnded_example = update-IsEnded [] success starting ends

answers : any is_answer (update [] entered asked).1 ≡ true
unfolding update update_within respond allowed closing_allows power_allows navigate activate_focus
    activate_target submit_response send_on send_answer submit close_session_menu
answers = refl

update-IsAnswered_example : IsAnswered asked (update [] entered asked)
update-IsAnswered_example = update-IsAnswered [] entered asked answers

acts : any is_power (update [] confirmed dialog).1 ≡ true
unfolding update update_within respond allowed closing_allows power_allows navigate activate_focus
    activate_target activate_confirm confirm
acts = refl

update-IsPowered_example : IsPowered dialog (update [] confirmed dialog)
update-IsPowered_example = update-IsPowered [] confirmed dialog acts

run-IsClosing_example :
    IsClosing
      (cancelling 7)
      (run [] (success ∷ session_cancelled 7 ∷ Message.close_timeout 7 ∷ []) closing)
run-IsClosing_example =
    run-IsClosing [] (cancelling 7) (success ∷ session_cancelled 7 ∷ Message.close_timeout 7 ∷ [])
      closing refl

run-closes_example :
    let s = run [] (close_requested 7 ∷ success ∷ session_cancelled 7 ∷ []) asked in
    let t = update [] (Message.close_timeout 7) s.0 in
    (t.0.closing ≡ some (dispatching 7)) × (closed_windows (s.1 ++ t.1) ≡ 7 ∷ [])
run-closes_example = run-closes [] 7 (success ∷ session_cancelled 7 ∷ []) asked refl refl

update_within-update_example :
    update_within (λ m a. (a, [])) 5 [] entered asked ≡ update [] entered asked
update_within-update_example = update_within-update [] (λ m a. (a, [])) 3 entered asked

-- From the button that submits to the sessions.
ordered :
    focus_order asked
    ≡ Target.authentication_input
      ∷ Target.submit
      ∷ Target.session
      ∷ Target.power suspend
      ∷ Target.power reboot
      ∷ Target.power power_off
      ∷ []
unfolding focus_order screen_targets phase_targets can_change_user can_select_session
    can_request_power
ordered = refl

move_focus-IsFocused_example : IsFocused forward asked (move_focus forward asked)
move_focus-IsFocused_example =
    move_focus-IsFocused forward asked Target.authentication_input
      (Target.submit
        ∷ Target.session
        ∷ Target.power suspend
        ∷ Target.power reboot
        ∷ Target.power power_off
        ∷ [])
      ordered
