-- ===== src/Greeter/Update.antt =====
-- `App::update` of src/app/mod.rs: what each message does.
pub mod Depth
pub mod Tasks
pub mod Effects
pub mod Answers
pub mod Quiet
pub mod Outward
pub mod Requests
pub mod Windows
pub mod Runs
use genkan.Prelude.{
  ℕ, zero, suc, Bool, true, false, ◌&&◌, ◌||◌, not, Option, none, some, List, [], ◌∷◌, ◌++◌, Text,
  codes, text_eq, ◌==◌, is_some, is_none, get_elem?, if◌then◌else◌,
}
use genkan.Conversation.{
  Conversation, is_waiting, begin_attempt, accepts, invalidate_attempt, clear_response,
  bounded_text, set_notice,
}
use genkan.Conversation as conversation
use genkan.Greetd.{Response, post_auth_message_response}
use genkan.Greeter.State.{
  Action, suspend, reboot, power_off, Account, Session, Phase, failed,
  cancelling_for_user_selection, selecting_user, user_selection_cancellation_failed,
  creating_session, waiting_for_input, authenticating, Closing, waiting_for_client,
  waiting_for_user_selection_cancellation, cancelling, dispatching, PowerState, idle, confirming,
  executing, Target, Navigation, next, previous, direction_next, direction_previous, activate, App,
  Outcome, ok, err, Message, tick, wallpaper_frame_ready, wallpaper_allocated, renderer_information,
  input_changed, submit, auth_result, user_selection_cancelled, user_selection_cancellation_slow,
  retry_user_selection_cancellation, navigate_focus, navigate_modal, sync_widget_focus,
  widget_focused, navigate_page, select_session, session_menu_opened, session_menu_closed,
  output_layout_changed, window_resized, ask_power, cancel_power, confirm_power, power_result,
  escape, close_requested, session_cancelled, Task, exchange, cancel_for_close,
  cancel_for_user_selection, close_window, widgets, execute_power, prepare_wallpaper_frame,
  finish_allocation, Step, action_eq, is_idle, is_confirming, close_session_menu, can_request_power,
  can_change_user, can_select_session, can_select_account,
}
use genkan.Greeter.Focus.{
  set_focus, focus_first, focus_input, is_failed, is_waiting_for_input, apply_widget_focus, Delta,
  forward, backward, move_focus, move_directional, cycle_session, reveal_focused_input, blur_input,
  enter_power_dialog, leave_power_dialog,
}
use genkan.Greeter.Focus as focus
use genkan.Greeter.Flow.{fail, handle_auth_result}
use genkan.Greeter.Operations.{
  notify, apply_renderer_information, select_account, change_user, finish_preview_user_selection,
  accounts_result, retry_session, retry,
}
use genkan.Greeter.Guards.{
  closing_allows, passes_dialog, dialog_allows, power_allows, closing_passes, allowed,
}
use genkan.Greeter.Handlers.{
  cancellation_window, is_cancelling, selection_cancelled, take_cancelled, cancelled_for_selection,
  selection_slow, is_cancellation_failed, retry_cancellation, is_creating, send_answer, send_on,
  submit_response, request_power, leave_confirmation, label, confirms, confirm, is_suspending,
  power_done, cancel_and_close, request_close, is_cleaning, session_is_cancelled, close_times_out,
  choose_account, choose_session, open_session_menu, edit_input,
}

-- The account that has the focus, if it is there.
unfoldable pub activate_account : (Message → App → Step) → Option Account → App → Step
activate_account update none a = (a, [])
activate_account update (some account) a = update (Message.select_account account) a

unfoldable pub activate_confirm : (Message → App → Step) → PowerState → App → Step
activate_confirm update idle a = (a, [])
activate_confirm update (confirming action) a = update (confirm_power action) a
activate_confirm update (executing action) a = (a, [])

-- The `match` of `activate_focus`, where the message of a control goes through `update` again.
unfoldable pub activate_target : (Message → App → Step) → Target → App → Step
unfolding activate_account activate_confirm
activate_target update (Target.account i) a =
    if can_select_account a then activate_account update (get_elem? a.accounts i) a else (a, [])
activate_target update Target.retry_account_selection a =
    if is_cancellation_failed a.phase
    then update retry_user_selection_cancellation a
    else update Message.retry a
activate_target update Target.authentication_input a = (a, [])
activate_target update Target.submit a = update submit a
activate_target update Target.retry_authentication a = update Message.retry a
activate_target update Target.change_user a = update Message.change_user a
activate_target update Target.session a =
    if can_select_session a then cycle_session forward a else (a, [])
activate_target update Target.retry_session a = update Message.retry_session a
activate_target update (Target.power action) a = update (ask_power action) a
activate_target update Target.dialog_cancel a = update cancel_power a
activate_target update Target.dialog_confirm a = activate_confirm update a.power_state a

unfoldable pub activate_focus : (Message → App → Step) → Option Target → App → Step
activate_focus update none a = (a, [])
activate_focus update (some target) a = activate_target update target a

unfoldable pub navigate : (Message → App → Step) → Navigation → App → Step
unfolding activate_focus
navigate update next a = move_focus forward a
navigate update previous a = move_focus backward a
navigate update direction_next a = move_directional forward a
navigate update direction_previous a = move_directional backward a
navigate update activate a = activate_focus update a.focus_target a

-- `Escape`.
unfoldable pub escape_from : (Message → App → Step) → App → Step
escape_from update a =
    if is_confirming a.power_state
    then update cancel_power a
    else if a.session_menu_open
    then (close_session_menu a, [])
    else if is_waiting_for_input a.phase
    then blur_input a
    else (a, [])

-- The `match` on the message. `found` is what `sessions::discover` finds, if it is asked.
unfoldable pub respond : List Session → (Message → App → Step) → Message → App → Step
respond found update tick a = (a, [])
respond found update wallpaper_frame_ready a = (a, prepare_wallpaper_frame ∷ [])
respond found update (wallpaper_allocated result) a =
    (a, finish_allocation result ∷ prepare_wallpaper_frame ∷ [])
respond found update (renderer_information backend) a = apply_renderer_information backend a
respond found update (input_changed value) a = edit_input value a
respond found update submit a = submit_response a
respond found update Message.retry a = if is_failed a.phase then retry a else (a, [])
respond found update Message.retry_session a =
    if is_failed a.phase && is_none a.selected_session then retry_session found a else (a, [])
respond found update (auth_result attempt result) a = handle_auth_result attempt result a
respond found update (Message.accounts_result result) a = accounts_result result a
respond found update Message.change_user a = if can_change_user a then change_user a else (a, [])
respond found update (user_selection_cancelled attempt result) a =
    cancelled_for_selection attempt result a
respond found update (user_selection_cancellation_slow attempt) a = selection_slow attempt a
respond found update retry_user_selection_cancellation a = retry_cancellation a
respond found update (Message.select_account account) a = choose_account account a
respond found update (navigate_focus navigation) a =
    navigate update navigation (close_session_menu a)
respond found update (navigate_modal navigation) a =
    if is_confirming a.power_state then navigate update navigation a else (a, [])
respond found update sync_widget_focus a = focus.sync_widget_focus a
respond found update (widget_focused is_input) a = apply_widget_focus is_input a
respond found update navigate_page a = (a, widgets ∷ [])
respond found update (select_session session) a = choose_session session a
respond found update session_menu_opened a = open_session_menu a
respond found update session_menu_closed a = (close_session_menu a, [])
respond found update output_layout_changed a = reveal_focused_input (close_session_menu a)
respond found update window_resized a = reveal_focused_input a
respond found update (ask_power action) a = request_power action a
respond found update cancel_power a = leave_confirmation a
respond found update (confirm_power action) a = confirm action a
respond found update (power_result result) a = power_done result a
respond found update escape a = escape_from update a
respond found update (close_requested window) a = request_close window a
respond found update (session_cancelled window) a = session_is_cancelled window a
respond found update (Message.close_timeout window) a = close_times_out window a

-- `update` with a bound on how deep it calls itself.
unfoldable pub update_within : (Message → App → Step) → ℕ → List Session → Message → App → Step
update_within beyond zero found m a = beyond m a
update_within beyond (suc depth) found m a =
    if allowed a m then respond found (update_within beyond depth found) m a else (a, [])

-- `update` calls itself once at most, so that a depth of 2 is enough.
unfoldable pub update : List Session → Message → App → Step
update found m a = update_within (λ m a. (a, [])) 2 found m a
