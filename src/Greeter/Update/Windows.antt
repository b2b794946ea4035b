-- ===== src/Greeter/Update/Windows.antt =====
-- The closing of the window in src/app/mod.rs: from the request until the window is closed.
use genkan.Prelude.{
  ℕ, Bool, true, false, ◌&&◌, not, Option, some, List, [], ◌∷◌, ◌≡◌, refl, sym, subst, arith,
  if◌then◌else◌, ==→eq,
}
use genkan.Conversation.{accepts}
use genkan.Greetd.{Response}
use genkan.Greeter.State.{
  Session, Closing, waiting_for_client, waiting_for_user_selection_cancellation, cancelling,
  dispatching, App, Outcome, Message, auth_result, user_selection_cancelled, session_cancelled,
  Task, close_window, Step,
}
use genkan.Greeter.Flow.{take_result, handle_auth_result, awaiting_client}
use genkan.Greeter.Update.{respond, update_within, update}
use genkan.Greeter.Handlers.{
  cancellation_window, take_cancelled, cancelled_for_selection, is_cleaning, session_is_cancelled,
  close_times_out,
}
use genkan.Greeter.Guards.{closing_allows, closing_passes, allowed}

abbrev pub window : Closing → ℕ
window (waiting_for_client w) = w
window (waiting_for_user_selection_cancellation w) = w
window (cancelling w) = w
window (dispatching w) = w

abbrev pub is_dispatching : Closing → Bool
is_dispatching (dispatching w) = true
is_dispatching _ = false

-- The windows that tasks close.
unfoldable pub closed_windows : List Task → List ℕ
closed_windows [] = []
closed_windows (close_window w ∷ ts) = w ∷ closed_windows ts
closed_windows (_ ∷ ts) = closed_windows ts

-- What is closed on the way from one state of closing to another.
abbrev pub closed_between : Closing → Closing → List ℕ
closed_between c d = if is_dispatching d && not (is_dispatching c) then window d ∷ [] else []

-- From `c`, closing goes on for the same window, which is closed on reaching the last state.
pub record IsClosing (c : Closing) (s : Step) : Type 0 where
  pub next : Closing
  pub closing : s.0.closing ≡ some next
  pub same : window next ≡ window c
  pub kept : is_dispatching c ≡ true → is_dispatching next ≡ true
  pub closed : closed_windows s.1 ≡ closed_between c next

pub stays-IsClosing : (c : Closing) (a : App) → a.closing ≡ some c → IsClosing c (a, [])
unfolding closed_windows
stays-IsClosing c a e = record {
  next = c;
  closing = e;
  same = refl;
  kept = λ h. h;
  closed = ground arith;
}

pub closes-IsClosing :
    (c : Closing) (a : App) (w : ℕ)
    → is_dispatching c ≡ false
    → window c ≡ w
    → a.closing ≡ some (dispatching w)
    → IsClosing c (a, close_window w ∷ [])
unfolding closed_windows
closes-IsClosing c a w h e k = record {
  next = dispatching w;
  closing = k;
  same = sym e;
  kept = λ _. refl;
  closed = ground arith;
}

pub if-IsClosing :
    (c : Closing) (b : Bool) (x y : Step)
    → (b ≡ true → IsClosing c x)
    → (b ≡ false → IsClosing c y)
    → IsClosing c (if◌then◌else◌ {A = Step} b x y)
if-IsClosing c true x y h k = h refl
if-IsClosing c false x y h k = k refl

result-IsClosing :
    (c : Closing) (k : Option Closing) (n : ℕ) (r : Outcome (Option ℕ × Response)) (a : App)
    → k ≡ some c
    → closing_allows c (auth_result n r) ≡ true
    → IsClosing c (take_result (awaiting_client k) r a)
unfolding take_result closed_windows closing_allows
result-IsClosing (waiting_for_client w) k n r a e h = rw e (record {
  next = cancelling w;
  closing = refl;
  same = refl;
  kept = λ h. ground arith;
  closed = refl;
})
result-IsClosing (waiting_for_user_selection_cancellation w) k n r a e h = ground arith
result-IsClosing (cancelling w) k n r a e h = ground arith
result-IsClosing (dispatching w) k n r a e h = ground arith

cancelled-IsClosing :
    (c : Closing) (k : Option Closing) (n : ℕ) (r : Outcome (Unit {0})) (a : App)
    → k ≡ some c
    → closing_allows c (user_selection_cancelled n r) ≡ true
    → IsClosing c (take_cancelled (cancellation_window k) r a)
unfolding take_cancelled closed_windows closing_allows
cancelled-IsClosing (waiting_for_user_selection_cancellation w) k n r a e h = rw e (
    closes-IsClosing (waiting_for_user_selection_cancellation w)
      (record a { closing = some (dispatching w) }) w refl refl refl)
cancelled-IsClosing (waiting_for_client w) k n r a e h = ground arith
cancelled-IsClosing (cancelling w) k n r a e h = ground arith
cancelled-IsClosing (dispatching w) k n r a e h = ground arith

-- Cleaning is for the window of the closing.
cleaning-some : (c : Closing) (w : ℕ) → is_cleaning (some c) w ≡ true → window c ≡ w
unfolding is_cleaning
cleaning-some (waiting_for_client v) w h = ==→eq v w h
cleaning-some (waiting_for_user_selection_cancellation v) w h = ==→eq v w h
cleaning-some (cancelling v) w h = ==→eq v w h
cleaning-some (dispatching v) w h = ground arith

cleaning-window :
    (k : Option Closing) (c : Closing) (w : ℕ) → k ≡ some c → is_cleaning k w ≡ true → window c ≡ w
cleaning-window k c w e h = cleaning-some c w (subst (λ x. is_cleaning x w ≡ true) e h)

cleaning-not_dispatching :
    (k : Option Closing) (c : Closing) (w : ℕ)
    → k ≡ some c
    → is_cleaning k w ≡ true
    → is_dispatching c ≡ false
unfolding is_cleaning
cleaning-not_dispatching k c w e h = ground arith

passes :
    (c : Closing) (k : Option Closing) (m : Message)
    → k ≡ some c
    → closing_passes k m ≡ true
    → closing_allows c m ≡ true
passes c k m e h = subst (λ x. closing_passes x m ≡ true) e h

module _ (found : List Session) (f : Message → App → Step) where
  respond-IsClosing :
      (c : Closing) (m : Message) (a : App)
      → a.closing ≡ some c
      → closing_allows c m ≡ true
      → IsClosing c (respond found f m a)
  unfolding respond closing_allows handle_auth_result cancelled_for_selection session_is_cancelled
      close_times_out
  respond-IsClosing c (auth_result n r) a e h =
      if-IsClosing c (not (accepts n a.conversation)) _ _ (λ _. stays-IsClosing c a e)
        (λ _. result-IsClosing c a.closing n r a e h)
  respond-IsClosing c (user_selection_cancelled n r) a e h =
      if-IsClosing c (not (accepts n a.conversation)) _ _ (λ _. stays-IsClosing c a e)
        (λ _. cancelled-IsClosing c a.closing n r a e h)
  respond-IsClosing c (session_cancelled w) a e h =
      if-IsClosing c (is_cleaning a.closing w) _ _
        (λ k.
          closes-IsClosing c _ w (cleaning-not_dispatching a.closing c w e k)
            (cleaning-window a.closing c w e k) refl)
        (λ _. stays-IsClosing c a e)
  respond-IsClosing c (Message.close_timeout w) a e h =
      if-IsClosing c (is_cleaning a.closing w) _ _
        (λ k.
          closes-IsClosing c _ w (cleaning-not_dispatching a.closing c w e k)
            (cleaning-window a.closing c w e k) refl)
        (λ _. stays-IsClosing c a e)
  respond-IsClosing c _ a e h = ground arith

  allowed-IsClosing :
      (c : Closing) (m : Message) (a : App)
      → a.closing ≡ some c
      → allowed a m ≡ true
      → IsClosing c (respond found f m a)
  unfolding allowed
  allowed-IsClosing c m a e h = respond-IsClosing c m a e (passes c a.closing m e (ground arith))

pub update-IsClosing :
    (found : List Session) (c : Closing) (m : Message) (a : App)
    → a.closing ≡ some c
    → IsClosing c (update found m a)
unfolding update update_within
update-IsClosing found c m a e =
    if-IsClosing c (allowed a m) _ _
      (allowed-IsClosing found (update_within (λ n b. (b, [])) 1 found) c m a e)
      (λ _. stays-IsClosing c a e)
