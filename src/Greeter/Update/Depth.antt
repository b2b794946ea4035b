-- ===== src/Greeter/Update/Depth.antt =====
-- `update` of src/app/mod.rs ends: it calls itself once at most.
use genkan.Prelude.{
  ℕ, suc, Bool, true, false, Option, none, some, List, [], ◌≡◌, refl, get_elem?, if◌then◌else◌,
}
use genkan.Greeter.State.{
  App, Message, PowerState, idle, confirming, executing, Navigation, next, previous, direction_next,
  direction_previous, activate, Target, Session, Step, navigate_focus, navigate_modal, escape,
  retry_user_selection_cancellation, submit, ask_power, cancel_power, confirm_power, is_confirming,
  can_select_account, Account, close_session_menu,
}
use genkan.Greeter.Update.{
  update_within, update, respond, navigate, activate_account, activate_confirm, activate_target,
  activate_focus, escape_from,
}
use genkan.Greeter.Handlers.{is_cancellation_failed}
use genkan.Greeter.Guards.{allowed}

-- The messages on which `update` does not call itself.
abbrev IsPlain : Message → Type 0
IsPlain (navigate_focus n) = ⊥
IsPlain (navigate_modal n) = ⊥
IsPlain escape = ⊥
IsPlain _ = Unit {0}

both {ℓ} :
    {A : Type ℓ} (b : Bool) {w x y z : A}
    → w ≡ y
    → x ≡ z
    → (if b then w else x) ≡ (if b then y else z)
both true p q = p
both false p q = q

module _ (found : List Session) where
  respond_plain :
      (m : Message) (f g : Message → App → Step) (a : App)
      → IsPlain m
      → respond found f m a ≡ respond found g m a
  unfolding respond
  respond_plain (navigate_focus n) f g a h = absurd h
  respond_plain (navigate_modal n) f g a h = absurd h
  respond_plain escape f g a h = absurd h
  respond_plain _ f g a h = refl

  -- Two functions that do the same on plain messages.
  module _ (f g : Message → App → Step)
      (same : (m : Message) (a : App) → IsPlain m → f m a ≡ g m a) where
    same_account : (o : Option Account) (a : App) → activate_account f o a ≡ activate_account g o a
    unfolding activate_account
    same_account none a = refl
    same_account (some x) a = same (Message.select_account x) a tt

    same_confirm : (p : PowerState) (a : App) → activate_confirm f p a ≡ activate_confirm g p a
    unfolding activate_confirm
    same_confirm idle a = refl
    same_confirm (confirming x) a = same (confirm_power x) a tt
    same_confirm (executing x) a = refl

    same_target : (t : Target) (a : App) → activate_target f t a ≡ activate_target g t a
    unfolding activate_target
    same_target (Target.account i) a =
        both (can_select_account a) (same_account (get_elem? a.accounts i) a) refl
    same_target Target.retry_account_selection a =
        both (is_cancellation_failed a.phase) (same retry_user_selection_cancellation a tt)
          (same Message.retry a tt)
    same_target Target.authentication_input a = refl
    same_target Target.submit a = same submit a tt
    same_target Target.retry_authentication a = same Message.retry a tt
    same_target Target.change_user a = same Message.change_user a tt
    same_target Target.session a = refl
    same_target Target.retry_session a = same Message.retry_session a tt
    same_target (Target.power x) a = same (ask_power x) a tt
    same_target Target.dialog_cancel a = same cancel_power a tt
    same_target Target.dialog_confirm a = same_confirm a.power_state a

    same_focus : (t : Option Target) (a : App) → activate_focus f t a ≡ activate_focus g t a
    unfolding activate_focus
    same_focus none a = refl
    same_focus (some t) a = same_target t a

    same_navigate : (n : Navigation) (a : App) → navigate f n a ≡ navigate g n a
    unfolding navigate
    same_navigate next a = refl
    same_navigate previous a = refl
    same_navigate direction_next a = refl
    same_navigate direction_previous a = refl
    same_navigate activate a = same_focus a.focus_target a

    same_respond : (m : Message) (a : App) → respond found f m a ≡ respond found g m a
    unfolding respond escape_from
    same_respond (navigate_focus n) a = same_navigate n (close_session_menu a)
    same_respond (navigate_modal n) a = both (is_confirming a.power_state) (same_navigate n a) refl
    same_respond escape a = both (is_confirming a.power_state) (same cancel_power a tt) refl
    same_respond _ a = refl

  plain :
      (f g : Message → App → Step) (i j : ℕ) (m : Message) (a : App)
      → IsPlain m
      → update_within f (suc i) found m a ≡ update_within g (suc j) found m a
  unfolding update_within
  plain f g i j m a h =
      both (allowed a m) (respond_plain m (update_within f i found) (update_within g j found) a h)
        refl

  -- The calls of `update` by itself end at depth 2, for every message and state: whatever function
  -- would answer the calls beyond a depth of 2 or more, it is not reached, and the result is that
  -- of `update`.
  pub update_within-update :
      (beyond : Message → App → Step) (depth : ℕ) (m : Message) (a : App)
      → update_within beyond (suc (suc depth)) found m a ≡ update found m a
  unfolding update_within update
  update_within-update beyond depth m a =
      let ending : Message → App → Step = λ n b. (b, []) in
      both (allowed a m)
        (same_respond (update_within beyond (suc depth) found) (update_within ending 1 found)
          (plain beyond ending depth 0) m a)
        refl
