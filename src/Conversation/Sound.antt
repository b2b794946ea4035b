-- ===== src/Conversation/Sound.antt =====
-- What every operation of src/conversation.rs keeps true of a conversation.
use genkan.Prelude.{
  ℕ, ◌^◌, ◌≤◌, ◌<◌, Bool, true, false, Option, none, some, List, [], ◌∷◌, ◌≡◌, refl, arith, Text,
  codes, length, ◌==◌, Bool-cases, length-append, inl, inr, take,
}
use mathlib.Core.Option
use genkan.Conversation.{
  max_text_chars, max_input_bytes, byte_length, Status, waiting, submitting, succeeded, Response,
  success, failure, Conversation, append_bounded, bounded_text, clean_prompt, new, next_attempt,
  begin_attempt, invalidate_attempt, clear_response, clear_notice, set_notice, accepts, is_waiting,
  update_input, push_input, pop_input, submit, respond, receive, fail, is_empty, drop_last,
  or_password, trim, trim_end_matches,
}
use genkan.Conversation.Buffer.{
  append_bounded-length, byte_length-le, bounded_text-length, bounded_text-cases, drop_last-length,
}
use genkan.Conversation.History.{
  Op, begin, invalidate, clear_reply, hide, submitted, pop, show, update, push, reply, abandon,
  perform, run,
}

abbrev pub IsMessage : Option Text → Type 0
IsMessage none = Unit
IsMessage (some m) = length m ≤ max_text_chars

-- What is kept of the text from outside is bounded, and only a conversation that waits holds input.
pub record IsSound (c : Conversation) : Type 0 where
  pub input_length : length c.input ≤ max_text_chars
  pub prompt_length : (1 ≤ length c.prompt) × (length c.prompt ≤ max_text_chars)
  pub message_length : IsMessage c.message
  pub input_waits : is_waiting c.status ≡ false → c.input ≡ []
  pub attempt_fits : c.attempt < 2 ^ 64

bounded_text-positive : (s : Text) → 1 ≤ length s → 1 ≤ length (bounded_text s)
bounded_text-positive s h = elim (bounded_text-cases s) [
  | inl (short, e) ↦ rw e h
  | inr (long, e) ↦ rw e (omega (arith, length-append (take 511 s) (0x2026 ∷ [])))
]

or_password-positive : (s : Text) → 1 ≤ length (or_password s)
or_password-positive [] = ground arith
or_password-positive (c ∷ s) = ground arith

clean_prompt-length :
    (s : Text) → (1 ≤ length (clean_prompt s)) × (length (clean_prompt s) ≤ max_text_chars)
unfolding clean_prompt
clean_prompt-length s =
    let shown = trim (trim_end_matches (λ c. c == b':') (trim s)) in
    (
      bounded_text-positive (or_password shown) (or_password-positive shown),
      bounded_text-length (or_password shown),
    )

IsMessage-map : (m : Option Text) → IsMessage (Option.map bounded_text m)
IsMessage-map none = tt
IsMessage-map (some m) = bounded_text-length m

begin_attempt-IsSound : (c : Conversation) → IsSound c → IsSound (begin_attempt c)
unfolding begin_attempt clear_response clear_notice next_attempt
begin_attempt-IsSound c h = record {
  input_length = omega arith;
  prompt_length = h.prompt_length;
  message_length = tt;
  input_waits = λ _. refl;
  attempt_fits = omega arith;
}

invalidate_attempt-IsSound : (c : Conversation) → IsSound c → IsSound (invalidate_attempt c)
unfolding invalidate_attempt clear_response next_attempt
invalidate_attempt-IsSound c h = record {
  input_length = omega arith;
  prompt_length = h.prompt_length;
  message_length = h.message_length;
  input_waits = λ _. refl;
  attempt_fits = omega arith;
}

-- A change of the input alone, while the conversation waits.
input-IsSound :
    (c : Conversation) (s : Text)
    → IsSound c
    → length s ≤ max_text_chars
    → is_waiting c.status ≡ true
    → IsSound (record c { input = s })
input-IsSound c s h short waits = record {
  input_length = short;
  prompt_length = h.prompt_length;
  message_length = h.message_length;
  input_waits = λ e. ground (arith);
  attempt_fits = h.attempt_fits;
}

update_input-IsSound :
    (value : Text) (c : Conversation) → IsSound c → IsSound (update_input value c).0
unfolding update_input
update_input-IsSound value c h = elim (Bool-cases (is_waiting c.status)) [
  | inl waits ↦ rw waits (
      input-IsSound c (append_bounded [] value) h (append_bounded-length [] value (ground arith))
        waits)
  | inr e ↦ rw e h
]

push_input-IsSound : (value : Text) (c : Conversation) → IsSound c → IsSound (push_input value c).0
unfolding push_input
push_input-IsSound value c h = elim (Bool-cases (is_waiting c.status)) [
  | inl waits ↦ rw waits (
      input-IsSound c (append_bounded c.input value) h
        (append_bounded-length c.input value h.input_length) waits)
  | inr e ↦ rw e h
]

pop_input-IsSound : (c : Conversation) → IsSound c → IsSound (pop_input c).0
unfolding pop_input
pop_input-IsSound c h = elim (Bool-cases (is_waiting c.status)) [
  | inl waits ↦ elim (Bool-cases (is_empty c.input)) [
    | inl e ↦ rw (waits, e) h
    | inr e ↦
        rw (waits, e)
          (input-IsSound c (drop_last c.input) h
            (omega (arith, h.input_length, drop_last-length c.input)) waits)
  ]
  | inr e ↦ rw e h
]

-- The input is empty, so that the status is free.
status-IsSound :
    (c : Conversation) (s : Status) → IsSound c → IsSound (record c { status = s; input = [] })
status-IsSound c s h = record {
  input_length = omega arith;
  prompt_length = h.prompt_length;
  message_length = h.message_length;
  input_waits = λ _. refl;
  attempt_fits = h.attempt_fits;
}

submit-IsSound : (c : Conversation) → IsSound c → IsSound (submit c).0
unfolding submit
submit-IsSound c h = elim (Bool-cases (is_waiting c.status)) [
  | inl waits ↦ rw waits (status-IsSound c submitting h)
  | inr e ↦ rw e h
]

notice-IsSound :
    (m : Option Text) (error : Bool) (c : Conversation)
    → IsMessage m
    → IsSound c
    → IsSound (record c { message = m; message_is_error = error })
notice-IsSound m error c short h = record {
  input_length = h.input_length;
  prompt_length = h.prompt_length;
  message_length = short;
  input_waits = h.input_waits;
  attempt_fits = h.attempt_fits;
}

prompt-IsSound :
    (s : Text) (secret : Bool) (c : Conversation)
    → (1 ≤ length s) × (length s ≤ max_text_chars)
    → IsSound c
    → IsSound (record c { prompt = s; secret = secret })
prompt-IsSound s secret c short h = record {
  input_length = h.input_length;
  prompt_length = short;
  message_length = h.message_length;
  input_waits = h.input_waits;
  attempt_fits = h.attempt_fits;
}

password_length : (1 ≤ length (codes "Password")) × (length (codes "Password") ≤ max_text_chars)
password_length = (omega arith, omega arith)

respond-IsSound : (r : Response) (c : Conversation) → IsSound c → IsSound (respond r c).0
unfolding respond clear_response clear_notice set_notice
respond-IsSound (Response.prompt secret message) c h =
    prompt-IsSound (clean_prompt message) secret (record c { status = waiting; input = [] })
      (clean_prompt-length message) (status-IsSound c waiting h)
respond-IsSound (Response.notice error message) c h =
    notice-IsSound (some (bounded_text message)) error c (bounded_text-length message) h
respond-IsSound success c h =
    notice-IsSound none false (record c { status = succeeded; input = [] }) tt
      (status-IsSound c succeeded h)
respond-IsSound (failure message) c h =
    notice-IsSound (some (bounded_text message)) true
      (record c { status = Status.failed; input = []; prompt = codes "Password"; secret = true })
      (bounded_text-length message)
      (prompt-IsSound (codes "Password") true (record c { status = Status.failed; input = [] })
        password_length (status-IsSound c Status.failed h))

receive-IsSound :
    (attempt : ℕ) (r : Response) (c : Conversation) → IsSound c → IsSound (receive attempt r c).0
unfolding receive
receive-IsSound attempt r c h = elim (Bool-cases (accepts attempt c)) [
  | inl e ↦ rw e (respond-IsSound r c h)
  | inr e ↦ rw e h
]

perform-IsSound : (o : Op) (c : Conversation) → IsSound c → IsSound (perform o c)
unfolding perform clear_response clear_notice set_notice fail
perform-IsSound begin c h = begin_attempt-IsSound c h
perform-IsSound invalidate c h = invalidate_attempt-IsSound c h
perform-IsSound clear_reply c h = status-IsSound c c.status h
perform-IsSound hide c h = notice-IsSound none false c tt h
perform-IsSound submitted c h = submit-IsSound c h
perform-IsSound pop c h = pop_input-IsSound c h
perform-IsSound (show message error) c h =
    notice-IsSound (some (bounded_text message)) error c (bounded_text-length message) h
perform-IsSound (update value) c h = update_input-IsSound value c h
perform-IsSound (push value) c h = push_input-IsSound value c h
perform-IsSound (reply attempt response) c h = receive-IsSound attempt response c h
perform-IsSound (abandon message) c h = receive-IsSound c.attempt (failure message) c h

pub runs-IsSound : (os : List Op) (c : Conversation) → IsSound c → IsSound (run os c)
unfolding run
runs-IsSound [] c h = h
runs-IsSound (o ∷ os) c h = runs-IsSound os (perform o c) (perform-IsSound o c h)

new-IsSound : IsSound new
unfolding new
new-IsSound = record {
  input_length = omega arith;
  prompt_length = password_length;
  message_length = tt;
  input_waits = λ _. refl;
  attempt_fits = omega arith;
}

-- After any sequence of operations on a new conversation the input has at most 512 characters and
-- at most 2048 bytes, prompt and message at most 512 characters, the prompt is not empty, the
-- attempt number fits in 64 bits, and a conversation that does not wait for a response holds no
-- input.
pub run-IsSound :
    (os : List Op) → IsSound (run os new) × (byte_length (run os new).input ≤ max_input_bytes)
run-IsSound os =
    let h = runs-IsSound os new new-IsSound in
    (h, omega (arith, h.input_length, byte_length-le (run os new).input))
