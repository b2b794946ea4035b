-- ===== src/Greeter/Update/Quiet.antt =====
-- Messages of src/app/mod.rs that ask for nothing beyond the greeter's own work.
use genkan.Prelude.{ℕ, Bool, ◌&&◌, not, Option, none, some, Text, text_eq, arith}
use genkan.Conversation.{accepts}
use genkan.Greeter.State.{
  Action, Account, Session, App, Outcome, ok, err, is_confirming, can_select_account,
  can_select_session,
}
use genkan.Greeter.Focus.{
  sync_widget_focus, apply_widget_focus, reveal_focused_input, enter_power_dialog,
}
use genkan.Greeter.Operations.{apply_renderer_information}
use genkan.Greeter.Handlers.{
  is_cancelling, is_cancellation_failed, is_suspending, request_close, cancel_and_close, edit_input,
  choose_session, open_session_menu, session_is_cancelled, close_times_out, power_done,
  selection_cancelled, cancelled_for_selection, take_cancelled, selection_slow, retry_cancellation,
  request_power, leave_confirmation, choose_account,
}
use genkan.Greeter.Update.Tasks.{
  IsQuiet, none-IsQuiet, cancel-IsQuiet, when-IsQuiet, set_focus-IsQuiet, focus_first-IsQuiet,
  select_account-IsQuiet, finish_preview-IsQuiet, leave_power_dialog-IsQuiet,
}

pub cancelled-IsQuiet :
    (k : Option ℕ) (r : Outcome (Unit {0})) (a : App) → IsQuiet (take_cancelled k r a).1
unfolding take_cancelled selection_cancelled
cancelled-IsQuiet (some w) r a = ground arith
cancelled-IsQuiet none (ok x) a =
    when-IsQuiet (is_cancelling a.phase) _ _ (set_focus-IsQuiet _ _) none-IsQuiet
cancelled-IsQuiet none (err e) a =
    when-IsQuiet (is_cancelling a.phase) _ _ (set_focus-IsQuiet _ _) none-IsQuiet

pub retry_cancellation-IsQuiet : (a : App) → IsQuiet (retry_cancellation a).1
unfolding retry_cancellation
retry_cancellation-IsQuiet a =
    when-IsQuiet (not (is_cancellation_failed a.phase)) _ _ none-IsQuiet (
      when-IsQuiet a.preview _ _ (finish_preview-IsQuiet _)
        (cancel-IsQuiet none _ _ (focus_first-IsQuiet _)))

pub power_done-IsQuiet : (r : Outcome (Unit {0})) (a : App) → IsQuiet (power_done r a).1
unfolding power_done
power_done-IsQuiet (ok x) a =
    when-IsQuiet (is_suspending a.power_state) _ _ (leave_power_dialog-IsQuiet _) none-IsQuiet
power_done-IsQuiet (err e) a = leave_power_dialog-IsQuiet _

pub request_power-IsQuiet : (x : Action) (a : App) → IsQuiet (request_power x a).1
unfolding request_power enter_power_dialog
request_power-IsQuiet x a = ground arith

pub request_close-IsQuiet : (w : ℕ) (a : App) → IsQuiet (request_close w a).1
unfolding request_close cancel_and_close
request_close-IsQuiet w a = ground arith

pub choose_account-IsQuiet : (x : Account) (a : App) → IsQuiet (choose_account x a).1
unfolding choose_account
choose_account-IsQuiet x a =
    when-IsQuiet (can_select_account a && not (text_eq x.username a.username)) _ _
      (select_account-IsQuiet x a) none-IsQuiet

pub renderer-IsQuiet : (b : Text) (a : App) → IsQuiet (apply_renderer_information b a).1
unfolding apply_renderer_information
renderer-IsQuiet b a = ground arith

pub edit-IsQuiet : (v : Text) (a : App) → IsQuiet (edit_input v a).1
unfolding edit_input
edit-IsQuiet v a = ground arith

pub selection-IsQuiet :
    (n : ℕ) (r : Outcome (Unit {0})) (a : App) → IsQuiet (cancelled_for_selection n r a).1
unfolding cancelled_for_selection
selection-IsQuiet n r a =
    when-IsQuiet (not (accepts n a.conversation)) _ _ none-IsQuiet (cancelled-IsQuiet _ r a)

pub slow-IsQuiet : (n : ℕ) (a : App) → IsQuiet (selection_slow n a).1
unfolding selection_slow
slow-IsQuiet n a = ground arith

pub sync-IsQuiet : (a : App) → IsQuiet (sync_widget_focus a).1
unfolding sync_widget_focus
sync-IsQuiet a = ground arith

pub widget_focus-IsQuiet : (b : Bool) (a : App) → IsQuiet (apply_widget_focus b a).1
unfolding apply_widget_focus
widget_focus-IsQuiet b a = ground arith

pub choose_session-IsQuiet : (x : Session) (a : App) → IsQuiet (choose_session x a).1
unfolding choose_session
choose_session-IsQuiet x a =
    when-IsQuiet (can_select_session a) _ _ (set_focus-IsQuiet _ _) none-IsQuiet

pub open_session_menu-IsQuiet : (a : App) → IsQuiet (open_session_menu a).1
unfolding open_session_menu
open_session_menu-IsQuiet a =
    when-IsQuiet (can_select_session a) _ _ (set_focus-IsQuiet _ _) none-IsQuiet

pub reveal-IsQuiet : (a : App) → IsQuiet (reveal_focused_input a).1
unfolding reveal_focused_input
reveal-IsQuiet a = ground arith

pub leave_confirmation-IsQuiet : (a : App) → IsQuiet (leave_confirmation a).1
unfolding leave_confirmation
leave_confirmation-IsQuiet a =
    when-IsQuiet (is_confirming a.power_state) _ _ (leave_power_dialog-IsQuiet _) none-IsQuiet

pub session_cancelled-IsQuiet : (w : ℕ) (a : App) → IsQuiet (session_is_cancelled w a).1
unfolding session_is_cancelled
session_cancelled-IsQuiet w a = ground arith

pub close_times_out-IsQuiet : (w : ℕ) (a : App) → IsQuiet (close_times_out w a).1
unfolding close_times_out
close_times_out-IsQuiet w a = ground arith
