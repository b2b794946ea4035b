-- ===== src/Greeter/State.antt =====
-- The state of `App` in src/app/mod.rs, its messages, and what it asks the runtime to do. A window,
-- a greetd client and an account's login time are numbers. Left out are the fields that only the
-- views read (the clock, the regions and sizes of the screen, identities of widgets) and the
-- wallpaper, whose calls are tasks.
use genkan.Prelude.{
  ℕ, Bool, true, false, ◌&&◌, not, Option, List, [], ◌∷◌, ◌++◌, Text, codes, ltb, length, is_some,
  is_none,
}
use genkan.Conversation.{Conversation}
use genkan.Greetd.{Request, Response}

-- `power::Action`.
pub data Action : Type 0 where
  suspend reboot power_off : Action

pub record Account : Type 0 where
  pub username : Text
  pub display_name : Text
  pub last_login : Option ℕ

-- `sessions::Session`.
pub record Session : Type 0 where
  pub name : Text
  pub command : List Text
  pub session_id : Text
  pub desktop_names : List Text

unfoldable pub join : Text → List Text → Text
join separator [] = []
join separator (t ∷ []) = t
join separator (t ∷ u ∷ ts) = t ++ (separator ++ join separator (u ∷ ts))

unfoldable pub environment : Session → List Text
environment s =
    codes "XDG_SESSION_TYPE=wayland"
    ∷ (codes "XDG_SESSION_DESKTOP=" ++ s.session_id)
    ∷ elim s.desktop_names [
      | [] ↦ []
      | n ∷ ns ↦ (codes "XDG_CURRENT_DESKTOP=" ++ join (codes ":") (n ∷ ns)) ∷ []
    ]

pub data Phase : Type 0 where
  failed discovering_users cancelling_for_user_selection selecting_user
        user_selection_cancellation_failed creating_session waiting_for_input authenticating
        starting_session :
      Phase

pub data Closing : Type 0 where
  waiting_for_client waiting_for_user_selection_cancellation cancelling dispatching : ℕ → Closing

pub data PowerState : Type 0 where
  idle : PowerState
  confirming executing : Action → PowerState

-- `focus::Target`.
pub data Target : Type 0 where
  account : ℕ → Target
  retry_account_selection authentication_input submit retry_authentication change_user session
        retry_session :
      Target
  power : Action → Target
  dialog_cancel dialog_confirm : Target

-- `focus::Navigation`.
pub data Navigation : Type 0 where
  next previous direction_next direction_previous activate : Navigation

-- `view::ScreenLayout`.
pub data ScreenLayout : Type 0 where
  wide flow : ScreenLayout

pub record App : Type 0 where
  pub username : Text
  pub display_name : Text
  pub accounts : List Account
  pub focus_target : Option Target
  pub focus_before_modal : Option Target
  pub conversation : Conversation
  pub session_message : Option Text
  pub power_message : Option Text
  pub power_message_is_error : Bool
  pub preview_message : Option Text
  pub phase : Phase
  pub client : Option ℕ
  pub sessions : List Session
  pub selected_session : Option Session
  pub session_menu_open : Bool
  pub pending_heic : Bool
  pub power_state : PowerState
  pub selection_session_cancelled : Bool
  pub closing : Option Closing
  pub preview : Bool
  pub authentication_layout : Option ScreenLayout

-- A `Result` whose error is its text.
pub data Outcome {ℓ} (A : Type ℓ) : Type ℓ where
  ok : A → Outcome A
  err : Text → Outcome A

pub data Message : Type 0 where
  tick wallpaper_frame_ready : Message
  wallpaper_allocated : Bool → Message
  renderer_information : Text → Message
  input_changed : Text → Message
  submit retry : Message
  retry_session : Message
  auth_result : ℕ → Outcome (Option ℕ × Response) → Message
  accounts_result : Outcome (List Account) → Message
  change_user : Message
  user_selection_cancelled : ℕ → Outcome (Unit {0}) → Message
  user_selection_cancellation_slow : ℕ → Message
  retry_user_selection_cancellation : Message
  select_account : Account → Message
  navigate_focus navigate_modal : Navigation → Message
  sync_widget_focus : Message
  widget_focused : Bool → Message
  navigate_page : Message
  select_session : Session → Message
  session_menu_opened session_menu_closed output_layout_changed window_resized : Message
  ask_power : Action → Message
  cancel_power : Message
  confirm_power : Action → Message
  power_result : Outcome (Unit {0}) → Message
  escape : Message
  close_requested session_cancelled close_timeout : ℕ → Message

-- What a `Task` does. `widgets` is focusing, scrolling and asking for the focused widget; the calls
-- of the wallpaper stand here too.
pub data Task : Type 0 where
  exchange : ℕ → Request → ℕ → Task
  begin : Text → ℕ → Bool → Task
  restart : Option ℕ → Text → ℕ → Task
  cancel_for_close : Option ℕ → ℕ → Task
  cancel_for_user_selection : Option ℕ → ℕ → Task
  close_timeout close_window : ℕ → Task
  discover_accounts exit widgets : Task
  execute_power : Action → Task
  prepare_wallpaper_frame start_heic_source report_unusable_heic_renderer : Task
  finish_allocation : Bool → Task

-- `Task::batch` puts lists together, `Task::none` is the empty one.
abbrev pub Step : Type 0
Step = App × List Task

abbrev pub is_empty {ℓ} : {A : Type ℓ} → List A → Bool
is_empty [] = true
is_empty (_ ∷ _) = false

abbrev pub action_eq : Action → Action → Bool
action_eq suspend suspend = true
action_eq reboot reboot = true
action_eq power_off power_off = true
action_eq _ _ = false

abbrev pub is_idle : PowerState → Bool
is_idle idle = true
is_idle _ = false

abbrev pub is_confirming : PowerState → Bool
is_confirming (confirming a) = true
is_confirming _ = false

unfoldable pub close_session_menu : App → App
close_session_menu a = record a { session_menu_open = false }

abbrev accepts_power : Phase → Bool
accepts_power waiting_for_input = true
accepts_power failed = true
accepts_power selecting_user = true
accepts_power user_selection_cancellation_failed = true
accepts_power _ = false

unfoldable pub can_request_power : App → Bool
can_request_power a = is_none a.closing && (is_idle a.power_state && accepts_power a.phase)

abbrev accepts_change : Phase → Bool
accepts_change waiting_for_input = true
accepts_change failed = true
accepts_change _ = false

unfoldable pub can_change_user : App → Bool
can_change_user a =
    is_none a.closing
    && (is_idle a.power_state && (ltb 1 (length a.accounts) && accepts_change a.phase))

abbrev is_submitted : Phase → Bool
is_submitted authenticating = true
is_submitted starting_session = true
is_submitted _ = false

unfoldable pub can_select_session : App → Bool
can_select_session a =
    is_none a.closing
    && (is_idle a.power_state && (is_some a.selected_session && not (is_submitted a.phase)))

abbrev pub is_selecting : Phase → Bool
is_selecting selecting_user = true
is_selecting _ = false

unfoldable pub can_select_account : App → Bool
can_select_account a = is_none a.closing && (is_idle a.power_state && is_selecting a.phase)
