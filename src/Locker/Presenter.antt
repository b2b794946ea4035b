-- ===== src/Locker/Presenter.antt =====
-- `LockerPresentation` of src/locker/mod.rs, as an instance of the trait `Presentation`. Text
-- shaping and the feature `lock-test` are left out; clients that were told to end are kept in a
-- list.
use genkan.Prelude.{
  ℕ, zero, suc, ◌+◌, ◌-◌, ◌/◌, Bool, true, false, ◌&&◌, ◌||◌, not, Option, none, some, List, [],
  ◌∷◌, Text, codes, leb, if◌then◌else◌, text_eq,
}
use mathlib.Core.List.{map}
use genkan.SessionLock.Frames.{RgbaFrame, rgba_frame, PresentationFrame, presentation_frame}
use genkan.Conversation.{
  new as new_conversation, Conversation, Response, begin_attempt, accepts, receive, fail, Effect,
  authenticated,
}
use genkan.Locker.Services.{Event, prompt, notice, success, failure, Services}

abbrev pub max_auth_events_per_refresh : ℕ
max_auth_events_per_refresh = 32

abbrev pub overlay_width : ℕ
overlay_width = 1500

abbrev pub overlay_height : ℕ
overlay_height = 1200

abbrev pub canvas_width : ℕ
canvas_width = 3840

abbrev pub canvas_height : ℕ
canvas_height = 2400

-- `char::to_ascii_lowercase`.
abbrev to_ascii_lowercase : ℕ → ℕ
to_ascii_lowercase c = if leb b'A' c && leb c b'Z' then c + 32 else c

-- A prompt other than "password" stays visible. The source returns the prompt itself.
unfoldable pub persistent_prompt : Text → Option Text
persistent_prompt shown =
    if text_eq (map to_ascii_lowercase shown) (codes "password") then none else some shown

pub record LockerPresentation (Client Wallpaper : Type 0) : Type 0 where
  pub wallpaper : Wallpaper
  pub conversation : Conversation
  pub auth : Option (ℕ × Client)
  pub prompt_id : Option ℕ
  pub confirmed : Bool
  pub authorized : Bool
  pub background : Option RgbaFrame
  pub overlay : Option RgbaFrame
  pub frame : Option PresentationFrame
  pub instruction_page : ℕ
  pub started : ℕ
  pub cancelled : List Client

abbrev pub authenticates : Option Effect → Bool
authenticates (some authenticated) = true
authenticates _ = false

module _ (S : Services) where
  open S use {
    Client, try_receive, begin, respond, start, Wallpaper, receive_wallpaper, wallpaper_frame,
    render_authentication_overlay,
  }

  abbrev pub Locker : Type 0
  Locker = LockerPresentation Client Wallpaper

  unfoldable pub rebuild_frame : Locker → Locker
  rebuild_frame p = elim p.overlay [
    | none ↦ record p { frame = none }
    | some overlay ↦ record p {
      frame =
          presentation_frame canvas_width canvas_height p.background overlay
            ((canvas_width - overlay_width) / 2) ((canvas_height - overlay_height) / 2);
    }
  ]

  unfoldable pub rebuild_overlay : Locker → Locker
  rebuild_overlay p = rebuild_frame (record p {
    overlay =
        rgba_frame overlay_width overlay_height
          (render_authentication_overlay p.conversation p.confirmed p.instruction_page);
  })

  unfoldable pub fail_authentication : Locker → Locker
  fail_authentication p = record p {
    conversation = fail (codes "Authentication worker unavailable") p.conversation;
  }

  -- The client, if there is one, is told to end.
  unfoldable pub cancel_client : Locker → Locker
  cancel_client p = elim p.auth [
    | none ↦ p
    | some (_, client) ↦ record p { auth = none; cancelled = client ∷ p.cancelled }
  ]

  unfoldable pub replace_worker : ℕ → Locker → Locker
  unfolding cancel_client fail_authentication
  replace_worker attempt p =
      let q = cancel_client p in
      let r = record q { started = q.started + 1 } in
      elim (start q.started) [
        | none ↦ fail_authentication r
        | some replacement ↦
            let (begun, client) = begin replacement in
            if begun
            then record r { auth = some (attempt, client) }
            else fail_authentication (record r { cancelled = client ∷ r.cancelled })
      ]

  unfoldable pub retry : Locker → Bool × Locker
  unfolding replace_worker
  retry p =
      let q = record p { instruction_page = 0; conversation = begin_attempt p.conversation } in
      let next = q.conversation.attempt in
      (
        true,
        elim q.auth [
          | none ↦ record (replace_worker next q) { prompt_id = none }
          | some (attempt, client) ↦
              let (retried, client') = S.retry client in
              if retried
              then record q { auth = some (next, client'); prompt_id = none }
              else record (replace_worker next (record q { auth = some (attempt, client') })) {
                prompt_id = none;
              }
        ],
      )

  unfoldable pub cancel_attempt : Locker → Bool × Locker
  unfolding replace_worker
  cancel_attempt p = elim p.auth [
    | none ↦ (false, p)
    | some (_, client) ↦
        let q = record p {
          auth = none;
          conversation = begin_attempt p.conversation;
          instruction_page = 0;
          cancelled = client ∷ p.cancelled;
        } in
        (true, record (replace_worker q.conversation.attempt q) { prompt_id = none })
  ]

  -- An event of an attempt that is accepted.
  unfoldable pub handle_event : Event → ℕ → Locker → Locker
  handle_event (prompt id secret message) attempt p = record p {
    prompt_id = some id;
    conversation = (receive attempt (Response.prompt secret message) p.conversation).0;
  }
  handle_event (notice error message) attempt p = record p {
    conversation = (receive attempt (Response.notice error message) p.conversation).0;
  }
  handle_event success attempt p =
      let (conversation, effect) = receive attempt Response.success p.conversation in
      record p {
        prompt_id = none;
        conversation = conversation;
        authorized = authenticates effect || p.authorized;
      }
  handle_event failure attempt p = record p {
    prompt_id = none;
    conversation =
        (receive attempt (Response.failure (codes "Authentication failed")) p.conversation).0;
  }

  unfoldable pub polled : ℕ → Locker → Option Event × Client → Option (Event × ℕ) × Locker
  polled attempt p (none, client) = (none, record p { auth = some (attempt, client) })
  polled attempt p (some event, client) =
      (some (event, attempt), record p { auth = some (attempt, client) })

  -- The next event of the client, with its attempt.
  unfoldable pub next_event : Locker → Option (Event × ℕ) × Locker
  unfolding polled
  next_event p = elim p.auth [
    | none ↦ (none, p)
    | some (attempt, client) ↦ polled attempt p (try_receive client)
  ]

  -- The loop of `receive_auth`, with the turns left and whether anything was received.
  unfoldable pub receive_events : ℕ → Bool → Locker → Bool × Locker
  receive_events zero changed p = (changed, p)
  receive_events (suc turns) changed p = elim (next_event p).0 [
    | none ↦ (changed, (next_event p).1)
    | some (event, attempt) ↦
        let q = (next_event p).1 in
        receive_events turns true
          (if accepts attempt q.conversation then handle_event event attempt q else q)
  ]

  unfoldable pub receive_auth : Locker → Bool × Locker
  receive_auth p =
      let (changed, q) = receive_events max_auth_events_per_refresh false p in
      if not p.confirmed
      then (false, p)
      else (changed, if changed then record q { instruction_page = 0 } else q)

  -- `LockerPresentation::new`, with the client that was started and the wallpaper.
  unfoldable pub new : Client → Wallpaper → Locker
  unfolding rebuild_overlay
  new client wallpaper = rebuild_overlay (record {
    wallpaper = wallpaper;
    conversation = new_conversation;
    auth = some (new_conversation.attempt, client);
    prompt_id = none;
    confirmed = false;
    authorized = false;
    background = wallpaper_frame wallpaper;
    overlay = none;
    frame = none;
    instruction_page = 0;
    started = 0;
    cancelled = [];
  })
