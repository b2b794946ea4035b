-- ===== src/Greeter/Update/Requests.antt =====
-- When the greeter starts the session, ends, answers a prompt, or acts on the machine's power.
use genkan.Prelude.{true, List, ◌≡◌, arith, any}
use genkan.Greeter.State.{Session, App, Message}
use genkan.Greeter.Update.{update}
use genkan.Greeter.Update.Tasks.{is_start, is_exit, is_answer, is_power}
use genkan.Greeter.Update.Effects.{
  IsStarted, IsEnded, IsAnswered, IsPowered, quiet, started, ended, answered, powered,
}
use genkan.Greeter.Update.Outward.{update_effects}

module _ (found : List Session) (m : Message) (a : App) where
  -- An update that asks greetd to start a session has just been told that the current attempt
  -- succeeded, in a window that is not closing; it asks for nothing else, on the client that the
  -- result brought or else the one it had, with the command and the environment of the selected
  -- session, and the phase is then that of starting.
  pub update-IsStarted : any is_start (update found m a).1 ≡ true → IsStarted m a (update found m a)
  update-IsStarted h = elim (update_effects found m a) [
    | quiet q ↦ ground (arith, q.no_start)
    | started x ↦ x
    | ended x ↦ ground (arith, x.asked)
    | answered x ↦ ground (arith, x.asked)
    | powered x ↦ ground (arith, x.asked)
  ]

  -- An update that ends the greeter was told that the current attempt succeeded in the phase of
  -- starting, in a window that is not closing; it asks for nothing else.
  pub update-IsEnded : any is_exit (update found m a).1 ≡ true → IsEnded m a (update found m a)
  update-IsEnded h = elim (update_effects found m a) [
    | quiet q ↦ ground (arith, q.no_exit)
    | started x ↦ ground (arith, x.asked)
    | ended x ↦ x
    | answered x ↦ ground (arith, x.asked)
    | powered x ↦ ground (arith, x.asked)
  ]

  -- An update that sends a response of the user does so outside of a preview, with no dialog and no
  -- closing, while the conversation waits; it sends the input once, for the current attempt, on the
  -- client it has, and the input is empty afterwards, the conversation submitted and the phase that
  -- of authenticating.
  pub update-IsAnswered :
      any is_answer (update found m a).1 ≡ true → IsAnswered a (update found m a)
  update-IsAnswered h = elim (update_effects found m a) [
    | quiet q ↦ ground (arith, q.no_answer)
    | started x ↦ ground (arith, x.asked)
    | ended x ↦ ground (arith, x.asked)
    | answered x ↦ x
    | powered x ↦ ground (arith, x.asked)
  ]

  -- An update that acts on the power of the machine does so outside of a preview and of closing,
  -- while that action is being confirmed; it asks for nothing else, and the action is then being
  -- executed.
  pub update-IsPowered : any is_power (update found m a).1 ≡ true → IsPowered a (update found m a)
  update-IsPowered h = elim (update_effects found m a) [
    | quiet q ↦ ground (arith, q.no_power)
    | started x ↦ ground (arith, x.asked)
    | ended x ↦ ground (arith, x.asked)
    | answered x ↦ ground (arith, x.asked)
    | powered x ↦ x
  ]
