-- ===== src/Greeter/Update/Tasks.antt =====
-- The tasks of src/app that matter outside, and operations that give rise to none of them.
use genkan.Prelude.{
  ℕ, length, Bool, true, false, ◌&&◌, not, Option, none, some, List, [], ◌∷◌, Text, codes, ◌≡◌,
  arith, any, if◌then◌else◌, get_elem?, or_else,
}
use genkan.Conversation.{fail as conversation_fail}
use genkan.Greetd.{post_auth_message_response, start_session}
use genkan.Accounts.{preferred_account}
use genkan.Greeter.State.{
  failed, can_select_account, can_select_session, is_empty, Account, Session, App, Outcome, ok, err,
  Target, Task, exchange, cancel_for_user_selection, execute_power, Step,
}
use genkan.Greeter.Focus.{
  set_focus, clear_focus, focus_input, focus_or_clear, focus_first, focus_tasks, first, focus_order,
  Delta, next_index, move_in, move_focus, move_directional, move_directional_from, cycle_session,
  leave_power_dialog, shifted, kept_target,
}
use genkan.Greeter.Flow.{fail}
use genkan.Greeter.Operations.{
  notify, preview_prompt, select_account, retry_authentication, finish_preview_user_selection,
  forget_user, change_user, propose, accounts_result, rediscover, retry_session, retry,
}

abbrev pub is_start : Task → Bool
is_start (exchange c (start_session cmd env) n) = true
is_start _ = false

abbrev pub is_exit : Task → Bool
is_exit Task.exit = true
is_exit _ = false

-- A response of the user.
abbrev pub is_answer : Task → Bool
is_answer (exchange c (post_auth_message_response (some r)) n) = true
is_answer _ = false

abbrev pub is_power : Task → Bool
is_power (execute_power action) = true
is_power _ = false

pub record IsQuiet (ts : List Task) : Type 0 where
  pub no_start : any is_start ts ≡ false
  pub no_exit : any is_exit ts ≡ false
  pub no_answer : any is_answer ts ≡ false
  pub no_power : any is_power ts ≡ false

pub cancel-IsQuiet :
    (client : Option ℕ) (n : ℕ) (ts : List Task)
    → IsQuiet ts
    → IsQuiet (cancel_for_user_selection client n ∷ ts)
cancel-IsQuiet client n ts h = record {
  no_start = h.no_start;
  no_exit = h.no_exit;
  no_answer = h.no_answer;
  no_power = h.no_power;
}

pub focus_tasks-IsQuiet : (t : Target) (as' : List Account) → IsQuiet (focus_tasks t as')
unfolding focus_tasks
focus_tasks-IsQuiet t as' = ground arith

pub set_focus-IsQuiet : (t : Target) (a : App) → IsQuiet (set_focus t a).1
unfolding set_focus
set_focus-IsQuiet t a = focus_tasks-IsQuiet t a.accounts

pub focus_input-IsQuiet : (a : App) → IsQuiet (focus_input a).1
unfolding focus_input
focus_input-IsQuiet a = set_focus-IsQuiet Target.authentication_input a

pub focus_or_clear-IsQuiet : (t : Option Target) (a : App) → IsQuiet (focus_or_clear t a).1
unfolding focus_or_clear clear_focus
focus_or_clear-IsQuiet none a = ground arith
focus_or_clear-IsQuiet (some t) a = set_focus-IsQuiet t a

pub focus_first-IsQuiet : (a : App) → IsQuiet (focus_first a).1
unfolding focus_first
focus_first-IsQuiet a = focus_or_clear-IsQuiet (first (focus_order a)) a

pub fail-IsQuiet : (m : Text) (a : App) → IsQuiet (fail m a).1
unfolding fail
fail-IsQuiet m a =
    focus_first-IsQuiet
      (record a { phase = failed; conversation = conversation_fail m a.conversation })

pub move_in-IsQuiet : (d : Delta) (ts : List Target) (a : App) → IsQuiet (move_in d ts a).1
unfolding move_in clear_focus
move_in-IsQuiet d [] a = ground arith
move_in-IsQuiet d (t ∷ ts) a =
    elim (get_elem? (t ∷ ts) (next_index d a.focus_target (t ∷ ts)))
      as (λ o.
        IsQuiet (elim o as (λ _. Step) [ none ↦ (a, []) | some target ↦ set_focus target a ]).1) [
          | none ↦ ground arith
          | some target ↦ set_focus-IsQuiet target a
        ]

pub move_focus-IsQuiet : (d : Delta) (a : App) → IsQuiet (move_focus d a).1
unfolding move_focus
move_focus-IsQuiet d a = move_in-IsQuiet d (focus_order a) a

pub when-IsQuiet :
    (b : Bool) (x y : Step) → IsQuiet x.1 → IsQuiet y.1 → IsQuiet (if◌then◌else◌ {A = Step} b x y).1
when-IsQuiet true x y h k = h
when-IsQuiet false x y h k = k

pub none-IsQuiet : IsQuiet []
none-IsQuiet = ground arith

pub cycle_session-IsQuiet : (d : Delta) (a : App) → IsQuiet (cycle_session d a).1
unfolding cycle_session
cycle_session-IsQuiet d a = none-IsQuiet

move_from-IsQuiet :
    (d : Delta) (t : Option Target) (a : App) → IsQuiet (move_directional_from d t a).1
unfolding move_directional_from
move_from-IsQuiet d (some (Target.account i)) a =
    when-IsQuiet (can_select_account a && not (is_empty a.accounts))
      (set_focus (Target.account (shifted d i (length a.accounts))) a) (a, [])
      (set_focus-IsQuiet (Target.account (shifted d i (length a.accounts))) a) none-IsQuiet
move_from-IsQuiet d (some Target.session) a =
    when-IsQuiet (can_select_session a) (cycle_session d a) (a, []) (cycle_session-IsQuiet d a)
      none-IsQuiet
move_from-IsQuiet d (some Target.dialog_cancel) a = move_focus-IsQuiet d a
move_from-IsQuiet d (some Target.dialog_confirm) a = move_focus-IsQuiet d a
move_from-IsQuiet d none a = none-IsQuiet
move_from-IsQuiet d (some Target.retry_account_selection) a = none-IsQuiet
move_from-IsQuiet d (some Target.authentication_input) a = none-IsQuiet
move_from-IsQuiet d (some Target.submit) a = none-IsQuiet
move_from-IsQuiet d (some Target.retry_authentication) a = none-IsQuiet
move_from-IsQuiet d (some Target.change_user) a = none-IsQuiet
move_from-IsQuiet d (some Target.retry_session) a = none-IsQuiet
move_from-IsQuiet d (some (Target.power x)) a = none-IsQuiet

pub move_directional-IsQuiet : (d : Delta) (a : App) → IsQuiet (move_directional d a).1
unfolding move_directional
move_directional-IsQuiet d a = move_from-IsQuiet d a.focus_target a

pub leave_power_dialog-IsQuiet : (a : App) → IsQuiet (leave_power_dialog a).1
unfolding leave_power_dialog
leave_power_dialog-IsQuiet a =
    focus_or_clear-IsQuiet
      (or_else (kept_target (focus_order a) a.focus_before_modal) (first (focus_order a)))
      (record a { focus_before_modal = none })

pub select_account-IsQuiet : (x : Account) (a : App) → IsQuiet (select_account x a).1
unfolding select_account preview_prompt focus_input set_focus focus_tasks
select_account-IsQuiet x a = ground arith

pub finish_preview-IsQuiet : (a : App) → IsQuiet (finish_preview_user_selection a).1
unfolding finish_preview_user_selection set_focus notify
finish_preview-IsQuiet a = focus_tasks-IsQuiet (Target.account 0) a.accounts

pub change_user-IsQuiet : (a : App) → IsQuiet (change_user a).1
unfolding change_user
change_user-IsQuiet a =
    let h = focus_first-IsQuiet (forget_user a) in
    ground (
      arith,
      finish_preview-IsQuiet (focus_first (forget_user a)).0,
      h.no_start,
      h.no_exit,
      h.no_answer,
      h.no_power,
    )

pub retry_session-IsQuiet : (found : List Session) (a : App) → IsQuiet (retry_session found a).1
unfolding retry_session rediscover retry_authentication
retry_session-IsQuiet found a = ground arith

pub retry-IsQuiet : (a : App) → IsQuiet (retry a).1
unfolding retry rediscover retry_authentication
retry-IsQuiet a = ground arith

propose-IsQuiet : (x : Option Account) (a : App) → IsQuiet (propose x a).1
unfolding propose set_focus notify
propose-IsQuiet (some x) a = select_account-IsQuiet x a
propose-IsQuiet none a = focus_tasks-IsQuiet (Target.account 0) a.accounts

pub accounts_result-IsQuiet :
    (r : Outcome (List Account)) (a : App) → IsQuiet (accounts_result r a).1
unfolding accounts_result
accounts_result-IsQuiet (err e) a = fail-IsQuiet e a
accounts_result-IsQuiet (ok []) a =
    fail-IsQuiet (codes "AccountsService found no unlocked non-system users") a
accounts_result-IsQuiet (ok (x ∷ xs)) a =
    propose-IsQuiet (preferred_account (x ∷ xs)) (record a { accounts = x ∷ xs })
