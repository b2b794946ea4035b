-- ===== src/Locker/Dialogue.antt =====
-- The methods of the trait `Presentation` for `LockerPresentation`, of src/locker/mod.rs.
use genkan.Prelude.{
  ℕ, ◌+◌, ◌%◌, ◌^◌, Bool, true, false, ◌&&◌, not, none, some, Text, ◌==◌, if◌then◌else◌, is_none,
}
use genkan.SessionLock.Frames.{Refresh, Input, text, backspace, cancel, next_page, Presentation}
use genkan.Conversation.{Status, push_input, pop_input, submit}
use genkan.Locker.Services.{WallpaperRefresh, Services}
use genkan.Locker.Presenter.{
  Locker, persistent_prompt, rebuild_frame, rebuild_overlay, fail_authentication, retry,
  cancel_attempt, receive_auth,
}

abbrev pub is_failed : Status → Bool
is_failed Status.failed = true
is_failed _ = false

module _ (S : Services) where
  open S use {Client, begin, respond, Wallpaper, receive_wallpaper, wallpaper_frame}

  unfoldable pub receive_latest : Locker S → Refresh × Locker S
  receive_latest p =
      let (changed, q) = receive_auth S p in
      if changed then (Refresh.overlay, rebuild_overlay S q) else (Refresh.unchanged, q)

  abbrev refreshed : WallpaperRefresh → Refresh
  refreshed WallpaperRefresh.unchanged = Refresh.unchanged
  refreshed WallpaperRefresh.frame = Refresh.frame
  refreshed WallpaperRefresh.failed = Refresh.failed

  abbrev is_change : WallpaperRefresh → Bool
  is_change WallpaperRefresh.unchanged = false
  is_change _ = true

  unfoldable pub receive_deferred : Locker S → Refresh × Locker S
  receive_deferred p =
      let (refresh, wallpaper) = receive_wallpaper p.wallpaper in
      let q = record p { wallpaper = wallpaper } in
      (
        refreshed refresh,
        if is_change refresh
            then rebuild_frame S (record q { background = wallpaper_frame wallpaper })
            else q,
      )

  -- `begin` on the client in place, and whether it worked.
  unfoldable pub begin_client : Locker S → Bool × Locker S
  begin_client p = elim p.auth [
    | none ↦ (false, p)
    | some (attempt, client) ↦
        let (begun, client') = begin client in (begun, record p { auth = some (attempt, client') })
  ]

  unfoldable pub lock_confirmed : Locker S → Locker S
  unfolding begin_client
  lock_confirmed p =
      let (begun, q) = begin_client (record p { confirmed = true }) in
      rebuild_overlay S (if begun then q else fail_authentication S q)

  -- The response goes to the client of the attempt that it answers.
  unfoldable pub deliver : ℕ → ℕ → Text → Locker S → Bool × Locker S
  deliver id attempt response p = elim p.auth [
    | none ↦ (false, p)
    | some (active, client) ↦
        let (responded, client') = respond id response client in
        let q = record p { auth = some (active, client') } in
        (
          true,
          if active == attempt
              then if responded then q else fail_authentication S q
              else fail_authentication S p,
        )
  ]

  unfoldable pub submit_response : Locker S → Bool × Locker S
  unfolding deliver
  submit_response p = elim p.prompt_id [
    | none ↦ (false, p)
    | some id ↦
        let (conversation, answer) = submit p.conversation in
        let q = record p { prompt_id = none; conversation = conversation } in
        elim answer [ none ↦ (false, q) | some (attempt, response) ↦ deliver id attempt response q ]
  ]

  unfoldable pub turn_page : Locker S → Bool × Locker S
  turn_page p =
      if is_none (persistent_prompt p.conversation.prompt) && is_none p.conversation.message
      then (false, p)
      else (true, record p { instruction_page = (p.instruction_page + 1) % 2 ^ 64 })

  -- The `match` of `input`.
  unfoldable pub take_input : Input → Locker S → Bool × Locker S
  unfolding submit_response turn_page
  take_input (text value) p =
      let (conversation, changed) = push_input value p.conversation in
      (changed, record p { conversation = conversation })
  take_input backspace p =
      let (conversation, changed) = pop_input p.conversation in
      (changed, record p { conversation = conversation })
  take_input Input.submit p =
      if is_failed p.conversation.status then retry S p else submit_response p
  take_input cancel p = cancel_attempt S p
  take_input next_page p = turn_page p

  unfoldable pub input : Locker S → Input → Bool × Locker S
  unfolding take_input
  input p value =
      let (changed, q) = take_input value p in
      if not p.confirmed then (false, p) else (changed, if changed then rebuild_overlay S q else q)

  unfoldable pub take_authorization : Locker S → Bool × Locker S
  take_authorization p = (p.authorized, record p { authorized = false })

  abbrev pub locker_presentation : Presentation
  locker_presentation = record {
    State = Locker S;
    receive_latest = receive_latest;
    receive_deferred = receive_deferred;
    frame = λ p. p.frame;
    lock_confirmed = lock_confirmed;
    input = input;
    take_authorization = take_authorization;
  }
