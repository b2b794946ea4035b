-- ===== src/Greeter/Guards.antt =====
-- Which messages `App::update` of src/app/mod.rs lets through while the window closes or a dialog
-- is open.
use genkan.Prelude.{Bool, true, false, ◌&&◌, ◌||◌, Option, none, some}
use genkan.Greeter.State.{
  Closing, waiting_for_client, waiting_for_user_selection_cancellation, cancelling, PowerState,
  confirming, executing, App, Message, tick, wallpaper_frame_ready, wallpaper_allocated,
  renderer_information, auth_result, user_selection_cancelled, navigate_modal,
  output_layout_changed, cancel_power, confirm_power, power_result, escape, close_requested,
  session_cancelled, action_eq, is_idle,
}

-- The messages that are let through while the window closes.
unfoldable pub closing_allows : Closing → Message → Bool
closing_allows (waiting_for_client _) (auth_result _ _) = true
closing_allows (waiting_for_client _) (session_cancelled _) = true
closing_allows (waiting_for_client _) (Message.close_timeout _) = true
closing_allows (waiting_for_user_selection_cancellation _) (user_selection_cancelled _ _) = true
closing_allows (waiting_for_user_selection_cancellation _) (Message.close_timeout _) = true
closing_allows (cancelling _) (session_cancelled _) = true
closing_allows (cancelling _) (Message.close_timeout _) = true
closing_allows _ _ = false

-- The messages that are let through in any dialog.
abbrev pub passes_dialog : Message → Bool
passes_dialog tick = true
passes_dialog wallpaper_frame_ready = true
passes_dialog (wallpaper_allocated _) = true
passes_dialog (renderer_information _) = true
passes_dialog output_layout_changed = true
passes_dialog (auth_result _ _) = true
passes_dialog (Message.accounts_result _) = true
passes_dialog (close_requested _) = true
passes_dialog (session_cancelled _) = true
passes_dialog (Message.close_timeout _) = true
passes_dialog _ = false

-- And those of the dialog itself.
abbrev pub dialog_allows : PowerState → Message → Bool
dialog_allows (confirming _) cancel_power = true
dialog_allows (confirming _) (navigate_modal _) = true
dialog_allows (confirming _) escape = true
dialog_allows (confirming expected) (confirm_power actual) = action_eq expected actual
dialog_allows (executing _) (power_result _) = true
dialog_allows _ _ = false

unfoldable pub power_allows : PowerState → Message → Bool
power_allows p m = is_idle p || (passes_dialog m || dialog_allows p m)

abbrev pub closing_passes : Option Closing → Message → Bool
closing_passes none m = true
closing_passes (some c) m = closing_allows c m

unfoldable pub allowed : App → Message → Bool
unfolding closing_allows power_allows
allowed a m = closing_passes a.closing m && power_allows a.power_state m
