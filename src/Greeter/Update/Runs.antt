-- ===== src/Greeter/Update/Runs.antt =====
-- Histories of messages of src/app/mod.rs in which a window closes.
use genkan.Prelude.{
  ℕ, Bool, true, false, ◌&&◌, not, Option, none, some, List, [], ◌∷◌, ◌++◌, ◌≡◌, refl, ap, sym, ◌∙◌,
  subst, arith, if◌then◌else◌, is_none,
}
use genkan.Greeter.State.{
  Session, Closing, waiting_for_client, waiting_for_user_selection_cancellation, cancelling,
  dispatching, App, Message, close_requested, Task, close_window, Step,
}
use genkan.Greeter.Update.{respond, update_within, update}
use genkan.Greeter.Handlers.{
  cancel_and_close, is_cancelling, is_creating, request_close, is_cleaning, close_times_out,
}
use genkan.Greeter.Guards.{closing_allows, power_allows, allowed}
use genkan.Greeter.Update.Windows.{
  window, is_dispatching, closed_windows, closed_between, IsClosing, stays-IsClosing,
  closes-IsClosing, if-IsClosing, update-IsClosing,
}

-- Messages one after the other.
unfoldable pub run : List Session → List Message → App → Step
run found [] a = (a, [])
run found (m ∷ ms) a =
    let (b, ts) = update found m a in let (c, us) = run found ms b in (c, ts ++ us)

closed_windows-append :
    (ts us : List Task) → closed_windows (ts ++ us) ≡ closed_windows ts ++ closed_windows us
unfolding closed_windows
closed_windows-append [] us = refl
closed_windows-append (close_window w ∷ ts) us = ap (λ x. w ∷ x) (closed_windows-append ts us)
closed_windows-append (_ ∷ ts) us = closed_windows-append ts us

closed_once :
    (c d e : Bool) (v w : ℕ)
    → (c ≡ true → d ≡ true)
    → (d ≡ true → e ≡ true)
    → w ≡ v
    → (if d && not c then v ∷ [] else []) ++ (if e && not d then w ∷ [] else [])
      ≡ (if e && not c then w ∷ [] else [])
closed_once true true true v w h k p = refl
closed_once true true false v w h k p = refl
closed_once true false e v w h k p = ground (arith, h refl)
closed_once false true true v w h k p = ap (λ x. x ∷ []) (sym p)
closed_once false true false v w h k p = ground (arith, k refl)
closed_once false false true v w h k p = refl
closed_once false false false v w h k p = refl

then-IsClosing :
    (c : Closing) (b : App) (ts us : List Task) (s : App) (h : IsClosing c (b, ts))
    → IsClosing h.next (s, us)
    → IsClosing c (s, ts ++ us)
then-IsClosing c b ts us s h k = record {
  next = k.next;
  closing = k.closing;
  same = k.same ∙ h.same;
  kept = λ x. k.kept (h.kept x);
  closed =
      closed_windows-append ts us
      ∙ (ap (λ x. x ++ closed_windows us) h.closed
          ∙ (ap (λ x. closed_between c h.next ++ x) k.closed
              ∙ closed_once (is_dispatching c) (is_dispatching h.next) (is_dispatching k.next)
                  (window h.next) (window k.next) h.kept k.kept k.same));
}

-- Once closing has begun, messages of any kind keep it going for the same window, and that window
-- is closed exactly when its last state is reached, once; no other window is closed.
pub run-IsClosing :
    (found : List Session) (c : Closing) (ms : List Message) (a : App)
    → a.closing ≡ some c
    → IsClosing c (run found ms a)
unfolding run
run-IsClosing found c [] a e = stays-IsClosing c a e
run-IsClosing found c (m ∷ ms) a e =
    let s = update found m a in
    let h = update-IsClosing found c m a e in
    then-IsClosing c s.0 s.1 (run found ms s.0).1 (run found ms s.0).0 h
      (run-IsClosing found h.next ms s.0 h.closing)

-- The request begins the closing of the window.
request-IsClosing :
    (w : ℕ) (a : App) → a.preview ≡ false → IsClosing (cancelling w) (request_close w a)
unfolding request_close cancel_and_close closed_windows
request-IsClosing w a h =
    if-IsClosing (cancelling w) a.preview _ _ (λ k. ground arith)
      (λ _.
        if-IsClosing (cancelling w) a.selection_session_cancelled _ _
          (λ _.
            closes-IsClosing (cancelling w) (record a { closing = some (dispatching w) }) w refl
              refl refl)
          (λ _.
            if-IsClosing (cancelling w) (is_cancelling a.phase) _ _
              (λ _. record {
                next = waiting_for_user_selection_cancellation w;
                closing = refl;
                same = refl;
                kept = λ h. h;
                closed = refl;
              })
              (λ _.
                if-IsClosing (cancelling w) (is_none a.client && is_creating a.phase) _ _
                  (λ _. record {
                    next = waiting_for_client w;
                    closing = refl;
                    same = refl;
                    kept = λ h. h;
                    closed = refl;
                  })
                  (λ _. record {
                    next = cancelling w;
                    closing = refl;
                    same = refl;
                    kept = λ h. h;
                    closed = refl;
                  }))))

-- The timeout ends it.
timeout-ends :
    (found : List Session) (c : Closing) (a : App)
    → a.closing ≡ some c
    → (update found (Message.close_timeout (window c)) a).0.closing ≡ some (dispatching (window c))
unfolding update update_within respond close_times_out allowed closing_allows power_allows
    is_cleaning
timeout-ends found (waiting_for_client w) a e = ground arith
timeout-ends found (waiting_for_user_selection_cancellation w) a e = ground arith
timeout-ends found (cancelling w) a e = ground arith
timeout-ends found (dispatching w) a e = ground arith

update-request :
    (found : List Session) (w : ℕ) (a : App)
    → a.closing ≡ none
    → update found (close_requested w) a ≡ request_close w a
unfolding update update_within respond allowed power_allows
update-request found w a h = ground arith

requested-IsClosing :
    (found : List Session) (w : ℕ) (ms : List Message) (a : App)
    → a.preview ≡ false
    → a.closing ≡ none
    → IsClosing (cancelling w) (run found (close_requested w ∷ ms) a)
unfolding run
requested-IsClosing found w ms a hp hc =
    let s = update found (close_requested w) a in
    let h =
      subst (λ x. IsClosing (cancelling w) x) (sym (update-request found w a hc))
        (request-IsClosing w a hp) in
    then-IsClosing (cancelling w) s.0 s.1 (run found ms s.0).1 (run found ms s.0).0 h
      (run-IsClosing found h.next ms s.0 h.closing)

next-dispatching :
    (c : Closing) (w : ℕ) (o : Option Closing)
    → o ≡ some c
    → o ≡ some (dispatching w)
    → c ≡ dispatching w
next-dispatching c w o h k = ground arith

-- Outside of a preview and of closing, a request to close a window, then any messages, then the
-- timeout of that window lead to the state in which it is being closed; and all in all that window
-- has been closed, once, and no other.
pub run-closes :
    (found : List Session) (w : ℕ) (ms : List Message) (a : App)
    → a.preview ≡ false
    → a.closing ≡ none
    → (let s = run found (close_requested w ∷ ms) a in
        let t = update found (Message.close_timeout w) s.0 in
        (t.0.closing ≡ some (dispatching w)) × (closed_windows (s.1 ++ t.1) ≡ w ∷ []))
run-closes found w ms a hp hc =
    let s = run found (close_requested w ∷ ms) a in
    let h = requested-IsClosing found w ms a hp hc in
    let t = update found (Message.close_timeout w) s.0 in
    let k = update-IsClosing found h.next (Message.close_timeout w) s.0 h.closing in
    let e =
      subst (λ v. (update found (Message.close_timeout v) s.0).0.closing ≡ some (dispatching v))
        h.same (timeout-ends found h.next s.0 h.closing) in
    let j = then-IsClosing (cancelling w) s.0 s.1 t.1 t.0 h k in
    (
      e,
      j.closed
          ∙ ap (λ c. closed_between (cancelling w) c)
              (next-dispatching j.next w t.0.closing j.closing e),
    )
