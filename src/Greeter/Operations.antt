-- ===== src/Greeter/Operations.antt =====
-- The operations of `App` in src/app/mod.rs that several messages share.
use genkan.Prelude.{
  Bool, true, false, ◌||◌, not, Option, none, some, List, [], ◌∷◌, Text, codes, text_eq,
  if◌then◌else◌,
}
use genkan.Conversation.{
  Response as ConversationResponse, begin_attempt, receive, set_notice, clear_notice,
}
use genkan.Accounts.{preferred_account, first}
use genkan.Greeter.State.{
  Account, Session, discovering_users, cancelling_for_user_selection, selecting_user,
  creating_session, waiting_for_input, Target, flow, App, Outcome, ok, err, begin, restart,
  cancel_for_user_selection, discover_accounts, start_heic_source, report_unusable_heic_renderer,
  Step, is_empty, close_session_menu,
}
use genkan.Greeter.Focus.{set_focus, focus_input, focus_first}
use genkan.Greeter.Flow.{fail}

-- A notice that is no error.
unfoldable pub notify : Text → App → App
notify message a = record a { conversation = set_notice message false a.conversation }

-- `wallpaper::renderer_supports_dynamic_heic`.
unfoldable pub renderer_supports_dynamic_heic : Text → Bool
renderer_supports_dynamic_heic backend =
    not (
      text_eq backend (codes "tiny-skia") || (text_eq backend (codes "Null") || text_eq backend []))

unfoldable pub apply_renderer_information : Text → App → Step
unfolding renderer_supports_dynamic_heic
apply_renderer_information backend a = (
  record a { pending_heic = false },
  if a.pending_heic
      then if renderer_supports_dynamic_heic backend
        then start_heic_source ∷ []
        else report_unusable_heic_renderer ∷ []
      else [],
)

-- The account is taken over, and a new attempt is begun.
unfoldable pub adopt_account : Account → App → App
unfolding close_session_menu
adopt_account account a = record (close_session_menu a) {
  username = account.username;
  display_name = account.display_name;
  focus_target = none;
  phase = creating_session;
  conversation = begin_attempt a.conversation;
  selection_session_cancelled = false;
}

-- In a preview the prompt is made up.
unfoldable pub preview_prompt : App → Step
preview_prompt a = focus_input (record a {
  conversation =
      (receive a.conversation.attempt (ConversationResponse.prompt true (codes "Password"))
        a.conversation).0;
  phase = waiting_for_input;
  authentication_layout = some flow;
  preview_message = some (codes "Preview mode: credentials and power actions are simulated");
})

unfoldable pub select_account : Account → App → Step
unfolding adopt_account preview_prompt
select_account account a =
    let b = adopt_account account a in
    if a.preview
    then preview_prompt b
    else if not (is_empty a.username)
    then (record b { client = none }, restart a.client b.username b.conversation.attempt ∷ [])
    else (b, begin b.username b.conversation.attempt (not a.selection_session_cancelled) ∷ [])

unfoldable pub retry_authentication : App → Step
retry_authentication a =
    let b = record a {
      phase = creating_session;
      client = none;
      conversation = begin_attempt a.conversation;
    } in
    (b, restart a.client a.username b.conversation.attempt ∷ [])

unfoldable pub finish_preview_user_selection : App → Step
unfolding notify
finish_preview_user_selection a =
    set_focus (Target.account 0)
      (notify (codes "Select a user") (record a { phase = selecting_user }))

-- The change of the state in `change_user`.
unfoldable pub forget_user : App → App
unfolding notify
forget_user a = notify (codes "Changing user…") (record a {
  client = none;
  conversation = begin_attempt a.conversation;
  username = [];
  display_name = codes "Select a user";
  selection_session_cancelled = false;
  phase = cancelling_for_user_selection;
})

unfoldable pub change_user : App → Step
unfolding forget_user finish_preview_user_selection
change_user a =
    let (b, focus) = focus_first (forget_user a) in
    if a.preview
    then finish_preview_user_selection b
    else (b, cancel_for_user_selection a.client b.conversation.attempt ∷ focus)

-- The account proposed, if there is one, is selected.
unfoldable pub propose : Option Account → App → Step
unfolding select_account notify
propose (some account) a = select_account account a
propose none a =
    set_focus (Target.account 0)
      (notify (codes "Select a user") (record a { phase = selecting_user }))

-- `AccountsResult`.
unfoldable pub accounts_result : Outcome (List Account) → App → Step
unfolding propose
accounts_result (err error) a = fail error a
accounts_result (ok []) a = fail (codes "AccountsService found no unlocked non-system users") a
accounts_result (ok (x ∷ xs)) a =
    propose (preferred_account (x ∷ xs)) (record a { accounts = x ∷ xs })

-- The accounts are looked up anew.
unfoldable pub rediscover : App → Step
rediscover a = (
  record a { phase = discovering_users; conversation = clear_notice a.conversation },
  discover_accounts ∷ [],
)

-- `RetrySession`, with the sessions that are found then.
unfoldable pub retry_session : List Session → App → Step
unfolding rediscover retry_authentication
retry_session found a =
    let b = record a { sessions = found; selected_session = first found } in
    let c = record b { session_message = none } in
    if a.preview
    then (
      record a { preview_message = some (codes "Preview mode: session discovery was not retried") },
      [],
    )
    else if is_empty found
    then (record b { session_message = some (codes "No valid Wayland sessions are installed") }, [])
    else if is_empty a.username
    then rediscover c
    else retry_authentication c

-- `Retry`, once the phase is `failed`.
unfoldable pub retry : App → Step
unfolding notify rediscover retry_authentication
retry a =
    if a.preview
    then (notify (codes "Preview: retry was not sent") a, [])
    else if is_empty a.username
    then rediscover a
    else retry_authentication a
