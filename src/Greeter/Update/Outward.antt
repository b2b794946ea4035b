-- ===== src/Greeter/Update/Outward.antt =====
-- What `update` of src/app/mod.rs asks for beyond the greeter's own work.
use genkan.Prelude.{
  ℕ, zero, suc, Bool, true, false, ◌&&◌, not, Option, none, some, List, codes, ◌≡◌, refl, arith,
  if◌then◌else◌, get_elem?, is_none, [],
}
use genkan.Conversation.{Status, waiting, is_waiting, submit}
use genkan.Greeter.State.{
  Action, Account, Session, PowerState, idle, confirming, executing, Target, Navigation, next,
  previous, direction_next, direction_previous, activate, App, Message, Step, is_idle,
  is_confirming, close_session_menu, can_select_account, can_select_session, can_change_user,
}
use genkan.Greeter.Focus.{forward, backward, blur_input, is_failed}
use genkan.Greeter.Update.{
  activate_account, activate_confirm, activate_target, activate_focus, navigate, escape_from,
  respond, update_within, update,
}
use genkan.Greeter.Handlers.{
  send_on, send_answer, submit_response, confirm, confirms, is_cancellation_failed,
}
use genkan.Greeter.Guards.{allowed, closing_allows, power_allows}
use genkan.Greeter.Update.Tasks.{
  IsQuiet, none-IsQuiet, change_user-IsQuiet, retry-IsQuiet, retry_session-IsQuiet,
  accounts_result-IsQuiet, when-IsQuiet, focus_input-IsQuiet, fail-IsQuiet,
  leave_power_dialog-IsQuiet, move_focus-IsQuiet, move_directional-IsQuiet, cycle_session-IsQuiet,
}
use genkan.Greeter.Update.Quiet.{
  retry_cancellation-IsQuiet, power_done-IsQuiet, request_power-IsQuiet, request_close-IsQuiet,
  choose_account-IsQuiet, renderer-IsQuiet, edit-IsQuiet, selection-IsQuiet, slow-IsQuiet,
  sync-IsQuiet, widget_focus-IsQuiet, choose_session-IsQuiet, open_session_menu-IsQuiet,
  reveal-IsQuiet, leave_confirmation-IsQuiet, session_cancelled-IsQuiet, close_times_out-IsQuiet,
}
use genkan.Greeter.Update.Effects.{
  Effects, reports_success, quiet, started, ended, answered, powered,
}
use genkan.Greeter.Update.Answers.{auth_effects}

-- What is let through in an open window with no dialog.
module _ (a : App) where
  not_closing-submit : allowed a Message.submit ≡ true → a.closing ≡ none
  unfolding allowed closing_allows
  not_closing-submit h = ground arith

  idle-submit : allowed a Message.submit ≡ true → is_idle a.power_state ≡ true
  unfolding allowed power_allows
  idle-submit h = ground arith

  not_closing-confirm : (x : Action) → allowed a (Message.confirm_power x) ≡ true → a.closing ≡ none
  unfolding allowed closing_allows
  not_closing-confirm x h = ground arith

module _ (m : Message) (o : App) where
  if_effects :
      (b : Bool) (x y : Step)
      → (b ≡ true → Effects m o x)
      → (b ≡ false → Effects m o y)
      → Effects m o (if◌then◌else◌ {A = Step} b x y)
  if_effects true x y h k = h refl
  if_effects false x y h k = k refl

  when_effects :
      (b : Bool) (x y : Step)
      → IsQuiet x.1
      → IsQuiet y.1
      → Effects m o (if◌then◌else◌ {A = Step} b x y)
  when_effects b x y h k = quiet (when-IsQuiet b x y h k)

waits : (s : Status) → is_waiting s ≡ true → s ≡ waiting
waits s h = ground arith

confirms→confirming : (x : Action) (p : PowerState) → confirms x p ≡ true → p ≡ confirming x
confirms→confirming x p h = ground arith

send_effects :
    (m : Message) (k : Option ℕ) (a : App)
    → a.client ≡ k
    → a.closing ≡ none
    → is_idle a.power_state ≡ true
    → is_waiting a.conversation.status ≡ true
    → a.preview ≡ false
    → Effects m a (send_on k a)
unfolding send_on send_answer submit
send_effects m none a hk hc hp hs hv = quiet (fail-IsQuiet (codes "Lost connection to greetd") a)
send_effects m (some client) a hk hc hp hs hv = rw hs (
    answered (record {
      client = client;
      connected = hk;
      not_closing = hc;
      idle = hp;
      waits = waits a.conversation.status hs;
      real = hv;
      asked = refl;
      phase = refl;
      status = refl;
      cleared = refl;
    }))

submit_effects :
    (m : Message) (a : App) → allowed a Message.submit ≡ true → Effects m a (submit_response a)
unfolding submit_response
submit_effects m a h =
    if_effects m a (not (is_waiting a.conversation.status)) _ _ (λ _. quiet none-IsQuiet)
      (λ w.
        if_effects m a a.preview _ _ (λ _. quiet (focus_input-IsQuiet _))
          (λ v.
            send_effects m a.client a refl (not_closing-submit a h) (idle-submit a h) (ground arith)
              v))

confirm_effects :
    (m : Message) (x : Action) (a : App)
    → allowed a (Message.confirm_power x) ≡ true
    → Effects m a (confirm x a)
unfolding confirm
confirm_effects m x a h =
    if_effects m a (not (confirms x a.power_state)) _ _ (λ _. quiet none-IsQuiet)
      (λ c.
        if_effects m a a.preview _ _ (λ _. quiet (leave_power_dialog-IsQuiet _))
          (λ v. powered (record {
            action = x;
            not_closing = not_closing-confirm a x h;
            asked_for = confirms→confirming x a.power_state (ground arith);
            real = v;
            asked = refl;
            state = refl;
          })))

-- What a message gives rise to that `update` passes on to itself.
passed_on :
    (m n : Message) (a : App) (s : Step)
    → reports_success n a ≡ false
    → Effects n a s
    → Effects m a s
passed_on m n a s h (quiet q) = quiet q
passed_on m n a s h (started x) = ground arith
passed_on m n a s h (ended x) = ground arith
passed_on m n a s h (answered x) = answered x
passed_on m n a s h (powered x) = powered x

closed_menu :
    (m : Message) (a : App) (s : Step)
    → reports_success m (close_session_menu a) ≡ false
    → Effects m (close_session_menu a) s
    → Effects m a s
unfolding close_session_menu
closed_menu m a s h (quiet q) = quiet q
closed_menu m a s h (started x) = ground arith
closed_menu m a s h (ended x) = ground arith
closed_menu m a s h (answered x) = answered (record {
  client = x.client;
  connected = x.connected;
  not_closing = x.not_closing;
  idle = x.idle;
  waits = x.waits;
  real = x.real;
  asked = x.asked;
  phase = x.phase;
  status = x.status;
  cleared = x.cleared;
})
closed_menu m a s h (powered x) = powered (record {
  action = x.action;
  not_closing = x.not_closing;
  asked_for = x.asked_for;
  real = x.real;
  asked = x.asked;
  state = x.state;
})

module _ (found : List Session) (f : Message → App → Step)
    (inner : (m : Message) (a : App) → Effects m a (f m a)) where
  account_effects :
      (m : Message) (o : Option Account) (a : App) → Effects m a (activate_account f o a)
  unfolding activate_account
  account_effects m none a = quiet none-IsQuiet
  account_effects m (some x) a =
      passed_on m (Message.select_account x) a _ refl (inner (Message.select_account x) a)

  confirm_effects_of :
      (m : Message) (p : PowerState) (a : App) → Effects m a (activate_confirm f p a)
  unfolding activate_confirm
  confirm_effects_of m idle a = quiet none-IsQuiet
  confirm_effects_of m (executing x) a = quiet none-IsQuiet
  confirm_effects_of m (confirming x) a =
      passed_on m (Message.confirm_power x) a _ refl (inner (Message.confirm_power x) a)

  target_effects : (m : Message) (t : Target) (a : App) → Effects m a (activate_target f t a)
  unfolding activate_target
  target_effects m (Target.account i) a =
      if_effects m a (can_select_account a) _ _ (λ _. account_effects m (get_elem? a.accounts i) a)
        (λ _. quiet none-IsQuiet)
  target_effects m Target.retry_account_selection a =
      if_effects m a (is_cancellation_failed a.phase) _ _
        (λ _. passed_on m Message.retry_user_selection_cancellation a _ refl (inner _ a))
        (λ _. passed_on m Message.retry a _ refl (inner _ a))
  target_effects m Target.authentication_input a = quiet none-IsQuiet
  target_effects m Target.submit a = passed_on m Message.submit a _ refl (inner _ a)
  target_effects m Target.retry_authentication a = passed_on m Message.retry a _ refl (inner _ a)
  target_effects m Target.change_user a = passed_on m Message.change_user a _ refl (inner _ a)
  target_effects m Target.session a =
      when_effects m a (can_select_session a) _ _ (cycle_session-IsQuiet forward a) none-IsQuiet
  target_effects m Target.retry_session a = passed_on m Message.retry_session a _ refl (inner _ a)
  target_effects m (Target.power x) a = passed_on m (Message.ask_power x) a _ refl (inner _ a)
  target_effects m Target.dialog_cancel a = passed_on m Message.cancel_power a _ refl (inner _ a)
  target_effects m Target.dialog_confirm a = confirm_effects_of m a.power_state a

  focused_effects : (m : Message) (t : Option Target) (a : App) → Effects m a (activate_focus f t a)
  unfolding activate_focus
  focused_effects m none a = quiet none-IsQuiet
  focused_effects m (some t) a = target_effects m t a

  navigate_effects : (m : Message) (n : Navigation) (a : App) → Effects m a (navigate f n a)
  unfolding navigate
  navigate_effects m next a = quiet (move_focus-IsQuiet forward a)
  navigate_effects m previous a = quiet (move_focus-IsQuiet backward a)
  navigate_effects m direction_next a = quiet (move_directional-IsQuiet forward a)
  navigate_effects m direction_previous a = quiet (move_directional-IsQuiet backward a)
  navigate_effects m activate a = focused_effects m a.focus_target a

  escape_effects : (a : App) → Effects Message.escape a (escape_from f a)
  unfolding escape_from blur_input
  escape_effects a =
      if_effects Message.escape a (is_confirming a.power_state) _ _
        (λ _. passed_on Message.escape Message.cancel_power a _ refl (inner _ a))
        (λ _. quiet (ground arith))

  respond_effects : (m : Message) (a : App) → allowed a m ≡ true → Effects m a (respond found f m a)
  unfolding respond
  respond_effects Message.tick a h = quiet none-IsQuiet
  respond_effects Message.wallpaper_frame_ready a h = quiet (ground arith)
  respond_effects (Message.wallpaper_allocated r) a h = quiet (ground arith)
  respond_effects (Message.renderer_information b) a h = quiet (renderer-IsQuiet b a)
  respond_effects (Message.input_changed v) a h = quiet (edit-IsQuiet v a)
  respond_effects Message.submit a h = submit_effects Message.submit a h
  respond_effects Message.retry a h =
      when_effects Message.retry a (is_failed a.phase) _ _ (retry-IsQuiet a) none-IsQuiet
  respond_effects Message.retry_session a h =
      when_effects Message.retry_session a (is_failed a.phase && is_none a.selected_session) _ _
        (retry_session-IsQuiet found a) none-IsQuiet
  respond_effects (Message.auth_result n r) a h = auth_effects n r a h
  respond_effects (Message.accounts_result r) a h = quiet (accounts_result-IsQuiet r a)
  respond_effects Message.change_user a h =
      when_effects Message.change_user a (can_change_user a) _ _ (change_user-IsQuiet a)
        none-IsQuiet
  respond_effects (Message.user_selection_cancelled n r) a h = quiet (selection-IsQuiet n r a)
  respond_effects (Message.user_selection_cancellation_slow n) a h = quiet (slow-IsQuiet n a)
  respond_effects Message.retry_user_selection_cancellation a h =
      quiet (retry_cancellation-IsQuiet a)
  respond_effects (Message.select_account x) a h = quiet (choose_account-IsQuiet x a)
  respond_effects (Message.navigate_focus n) a h =
      closed_menu (Message.navigate_focus n) a _ refl
        (navigate_effects (Message.navigate_focus n) n (close_session_menu a))
  respond_effects (Message.navigate_modal n) a h =
      if_effects (Message.navigate_modal n) a (is_confirming a.power_state) _ _
        (λ _. navigate_effects (Message.navigate_modal n) n a) (λ _. quiet none-IsQuiet)
  respond_effects Message.sync_widget_focus a h = quiet (sync-IsQuiet a)
  respond_effects (Message.widget_focused b) a h = quiet (widget_focus-IsQuiet b a)
  respond_effects Message.navigate_page a h = quiet (ground arith)
  respond_effects (Message.select_session x) a h = quiet (choose_session-IsQuiet x a)
  respond_effects Message.session_menu_opened a h = quiet (open_session_menu-IsQuiet a)
  respond_effects Message.session_menu_closed a h = quiet none-IsQuiet
  respond_effects Message.output_layout_changed a h = quiet (reveal-IsQuiet (close_session_menu a))
  respond_effects Message.window_resized a h = quiet (reveal-IsQuiet a)
  respond_effects (Message.ask_power x) a h = quiet (request_power-IsQuiet x a)
  respond_effects Message.cancel_power a h = quiet (leave_confirmation-IsQuiet a)
  respond_effects (Message.confirm_power x) a h = confirm_effects (Message.confirm_power x) x a h
  respond_effects (Message.power_result r) a h = quiet (power_done-IsQuiet r a)
  respond_effects Message.escape a h = escape_effects a
  respond_effects (Message.close_requested w) a h = quiet (request_close-IsQuiet w a)
  respond_effects (Message.session_cancelled w) a h = quiet (session_cancelled-IsQuiet w a)
  respond_effects (Message.close_timeout w) a h = quiet (close_times_out-IsQuiet w a)

pub within_effects :
    (depth : ℕ) (found : List Session) (m : Message) (a : App)
    → Effects m a (update_within (λ n b. (b, [])) depth found m a)
unfolding update_within
within_effects zero found m a = quiet none-IsQuiet
within_effects (suc depth) found m a =
    if_effects m a (allowed a m) _ _
      (respond_effects found (update_within (λ n b. (b, [])) depth found)
        (within_effects depth found) m a)
      (λ _. quiet none-IsQuiet)

pub update_effects : (found : List Session) (m : Message) (a : App) → Effects m a (update found m a)
unfolding update
update_effects found m a = within_effects 2 found m a
