-- ===== src/Greeter/Focus.antt =====
-- src/app/focus.rs: which control has the focus, and where the keyboard moves it.
pub mod Order
use genkan.Prelude.{
  ℕ, suc, ◌+◌, ◌-◌, ◌%◌, Bool, true, false, ◌&&◌, not, Option, none, some, List, [], ◌∷◌, ◌++◌,
  Text, text_eq, ◌==◌, length, get_elem?, position, any, is_some, is_none, or_else, if◌then◌else◌,
}
use genkan.Greeter.State.{
  suspend, reboot, power_off, Account, Session, Phase, failed, waiting_for_input, selecting_user,
  user_selection_cancellation_failed, idle, confirming, executing, Target, account,
  retry_account_selection, authentication_input, retry_authentication, power, dialog_cancel,
  dialog_confirm, App, Task, widgets, Step, is_empty, action_eq, close_session_menu,
  can_request_power, can_change_user, can_select_session, can_select_account,
}

unfoldable pub target_eq : Target → Target → Bool
target_eq (account i) (account j) = i == j
target_eq retry_account_selection retry_account_selection = true
target_eq authentication_input authentication_input = true
target_eq Target.submit Target.submit = true
target_eq retry_authentication retry_authentication = true
target_eq Target.change_user Target.change_user = true
target_eq Target.session Target.session = true
target_eq Target.retry_session Target.retry_session = true
target_eq (power a) (power b) = action_eq a b
target_eq dialog_cancel dialog_cancel = true
target_eq dialog_confirm dialog_confirm = true
target_eq _ _ = false

-- The accounts from a number on.
unfoldable pub account_targets : ℕ → ℕ → List Target
account_targets i ℕ.zero = []
account_targets i (suc n) = account i ∷ account_targets (suc i) n

-- The `match` on the phase in `focus_order`.
unfoldable pub phase_targets : App → List Target
unfolding account_targets
phase_targets a = elim a.phase [
  | selecting_user ↦ if can_select_account a then account_targets 0 (length a.accounts) else []
  | user_selection_cancellation_failed ↦ retry_account_selection ∷ []
  | waiting_for_input ↦ authentication_input ∷ Target.submit ∷ []
  | failed ↦
      if is_some a.selected_session
      then if is_empty a.username then retry_account_selection ∷ [] else retry_authentication ∷ []
      else []
  | _ ↦ []
]

abbrev pub is_failed : Phase → Bool
is_failed failed = true
is_failed _ = false

abbrev pub when {ℓ} : {A : Type ℓ} → Bool → List A → List A
when true xs = xs
when false xs = []

unfoldable pub screen_targets : App → List Target
unfolding phase_targets
screen_targets a =
    phase_targets a
    ++ (when (can_change_user a) (Target.change_user ∷ [])
        ++ (when (can_select_session a && is_some a.selected_session) (Target.session ∷ [])
            ++ (when (is_failed a.phase && is_none a.selected_session) (Target.retry_session ∷ [])
                ++ when (can_request_power a)
                    (power suspend ∷ power reboot ∷ power power_off ∷ []))))

unfoldable pub focus_order : App → List Target
focus_order a = elim a.power_state [
  | confirming _ ↦ dialog_cancel ∷ dialog_confirm ∷ []
  | executing _ ↦ []
  | idle ↦ if is_some a.closing then [] else screen_targets a
]

abbrev is_session : Target → Bool
is_session Target.session = true
is_session _ = false

-- An account is revealed if it is there.
unfoldable pub focus_tasks : Target → List Account → List Task
focus_tasks (account i) accounts = elim (get_elem? accounts i) [ none ↦ [] | some _ ↦ widgets ∷ [] ]
focus_tasks _ accounts = widgets ∷ []

unfoldable pub set_focus : Target → App → Step
unfolding close_session_menu focus_tasks
set_focus target a =
    let b = if is_session target then a else close_session_menu a in
    (record b { focus_target = some target }, focus_tasks target a.accounts)

unfoldable pub clear_focus : App → Step
unfolding close_session_menu
clear_focus a = (record (close_session_menu a) { focus_target = none }, widgets ∷ [])

unfoldable pub focus_input : App → Step
unfolding set_focus
focus_input a = set_focus authentication_input a

unfoldable pub focus_or_clear : Option Target → App → Step
unfolding set_focus clear_focus
focus_or_clear none a = clear_focus a
focus_or_clear (some target) a = set_focus target a

abbrev pub first {ℓ} : {A : Type ℓ} → List A → Option A
first [] = none
first (x ∷ xs) = some x

unfoldable pub focus_first : App → Step
unfolding focus_or_clear
focus_first a = focus_or_clear (first (focus_order a)) a

abbrev pub is_input : Option Target → Bool
is_input (some authentication_input) = true
is_input _ = false

unfoldable pub sync_widget_focus : App → Step
sync_widget_focus a =
    (if is_input a.focus_target then record a { focus_target = none } else a, widgets ∷ [])

abbrev pub is_waiting_for_input : Phase → Bool
is_waiting_for_input waiting_for_input = true
is_waiting_for_input _ = false

-- With whether the focused widget is the input.
unfoldable pub apply_widget_focus : Bool → App → Step
apply_widget_focus is_input a = (
  if is_input && is_waiting_for_input a.phase
      then record a { focus_target = some authentication_input }
      else a,
  [],
)

-- A step of 1 or -1.
pub data Delta : Type 0 where
  forward backward : Delta

-- `(index + delta).rem_euclid(length)`.
unfoldable pub shifted : Delta → ℕ → ℕ → ℕ
shifted forward index length = (index + 1) % length
shifted backward index length = (index + length - 1) % length

abbrev pub end_for : Delta → ℕ → ℕ
end_for forward length = 0
end_for backward length = length - 1

abbrev pub current_index : Option Target → List Target → Option ℕ
current_index none order = none
current_index (some target) order = position (target_eq target) order

-- The index of the next control.
unfoldable pub next_index : Delta → Option Target → List Target → ℕ
unfolding shifted
next_index delta focus order = elim (current_index focus order) [
  | none ↦ end_for delta (length order)
  | some index ↦ shifted delta index (length order)
]

-- The `match` on whether the order is empty. An index out of range would be a panic.
unfoldable pub move_in : Delta → List Target → App → Step
unfolding set_focus clear_focus
move_in delta [] a = clear_focus a
move_in delta (t ∷ ts) a = elim (get_elem? (t ∷ ts) (next_index delta a.focus_target (t ∷ ts))) [
  | none ↦ (a, [])
  | some target ↦ set_focus target a
]

unfoldable pub move_focus : Delta → App → Step
unfolding move_in
move_focus delta a = move_in delta (focus_order a) a

unfoldable pub texts_eq : List Text → List Text → Bool
texts_eq [] [] = true
texts_eq (s ∷ ss) (t ∷ ts) = text_eq s t && texts_eq ss ts
texts_eq _ _ = false

unfoldable pub session_eq : Session → Session → Bool
session_eq s t =
    text_eq s.name t.name
    && (texts_eq s.command t.command
        && (text_eq s.session_id t.session_id && texts_eq s.desktop_names t.desktop_names))

abbrev current_session : Option Session → List Session → ℕ
current_session none sessions = 0
current_session (some s) sessions = elim (position (session_eq s) sessions) [
  | none ↦ 0
  | some i ↦ i
]

unfoldable pub cycle_session : Delta → App → Step
unfolding shifted
cycle_session delta a =
    let n = shifted delta (current_session a.selected_session a.sessions) (length a.sessions) in
    (
      if is_empty a.sessions then a else elim (get_elem? a.sessions n) [
        | none ↦ a
        | some s ↦ record a { selected_session = some s }
      ],
      [],
    )

-- The `match` of `move_directional` on the focus.
unfoldable pub move_directional_from : Delta → Option Target → App → Step
unfolding shifted set_focus
move_directional_from delta (some (account index)) a =
    if can_select_account a && not (is_empty a.accounts)
    then set_focus (account (shifted delta index (length a.accounts))) a
    else (a, [])
move_directional_from delta (some Target.session) a =
    if can_select_session a then cycle_session delta a else (a, [])
move_directional_from delta (some dialog_cancel) a = move_focus delta a
move_directional_from delta (some dialog_confirm) a = move_focus delta a
move_directional_from delta _ a = (a, [])

unfoldable pub move_directional : Delta → App → Step
move_directional delta a = move_directional_from delta a.focus_target a

unfoldable pub reveal_focused_input : App → Step
reveal_focused_input a = (a, when (is_input a.focus_target) (widgets ∷ []))

unfoldable pub blur_input : App → Step
unfolding close_session_menu
blur_input a =
    let b = close_session_menu a in
    (if is_input b.focus_target then record b { focus_target = none } else b, widgets ∷ [])

unfoldable pub enter_power_dialog : App → Step
unfolding set_focus
enter_power_dialog a = set_focus dialog_cancel (record a { focus_before_modal = a.focus_target })

-- `Option::filter` by membership.
abbrev pub kept_target : List Target → Option Target → Option Target
kept_target order none = none
kept_target order (some t) = if any (target_eq t) order then some t else none

unfoldable pub leave_power_dialog : App → Step
unfolding focus_or_clear
leave_power_dialog a =
    let order = focus_order a in
    focus_or_clear (or_else (kept_target order a.focus_before_modal) (first order))
      (record a { focus_before_modal = none })
