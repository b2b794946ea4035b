-- ===== src/Conversation/Attempts.antt =====
-- Attempts and responses of src/conversation.rs: late answers, and one response for each prompt.
use genkan.Prelude.{
  ℕ, ◌+◌, ◌%◌, ◌^◌, ◌≤◌, ◌<◌, false, Option, none, some, List, [], ◌∷◌, ◌≡◌, refl, arith, Text,
  is_some, if◌then◌else◌, ◌==◌, Bool-cases, inl, inr,
}
use genkan.Conversation.{
  Response, success, failure, Effect, Conversation, new, next_attempt, begin_attempt,
  invalidate_attempt, clear_response, clear_notice, set_notice, accepts, is_waiting, update_input,
  push_input, pop_input, submit, respond, receive, fail,
}
use genkan.Conversation.History.{
  Op, begin, invalidate, clear_reply, hide, submitted, pop, show, update, push, reply, abandon,
  perform, run,
}

abbrev pub renews : Op → ℕ
renews begin = 1
renews invalidate = 1
renews _ = 0

-- How many times the operations begin or invalidate an attempt.
unfoldable pub renewals : List Op → ℕ
renewals [] = 0
renewals (o ∷ os) = renews o + renewals os

update_input-attempt : (v : Text) (c : Conversation) → (update_input v c).0.attempt ≡ c.attempt
unfolding update_input
update_input-attempt v c = ground arith

push_input-attempt : (v : Text) (c : Conversation) → (push_input v c).0.attempt ≡ c.attempt
unfolding push_input
push_input-attempt v c = ground arith

pop_input-attempt : (c : Conversation) → (pop_input c).0.attempt ≡ c.attempt
unfolding pop_input
pop_input-attempt c = ground arith

submit-attempt : (c : Conversation) → (submit c).0.attempt ≡ c.attempt
unfolding submit
submit-attempt c = ground arith

respond-attempt : (r : Response) (c : Conversation) → (respond r c).0.attempt ≡ c.attempt
unfolding respond clear_response clear_notice set_notice
respond-attempt (Response.prompt secret message) c = refl
respond-attempt (Response.notice error message) c = refl
respond-attempt success c = refl
respond-attempt (failure message) c = refl

receive-attempt : (a : ℕ) (r : Response) (c : Conversation) → (receive a r c).0.attempt ≡ c.attempt
unfolding receive
receive-attempt a r c = elim (Bool-cases (accepts a c)) [
  | inl e ↦ rw e (respond-attempt r c)
  | inr e ↦ rw e refl
]

perform-attempt :
    (o : Op) (c : Conversation)
    → c.attempt < 2 ^ 64
    → (perform o c).attempt ≡ (c.attempt + renews o) % 2 ^ 64
unfolding perform begin_attempt invalidate_attempt clear_response clear_notice set_notice
    next_attempt fail
perform-attempt begin c h = refl
perform-attempt invalidate c h = refl
perform-attempt clear_reply c h = omega arith
perform-attempt hide c h = omega arith
perform-attempt submitted c h = omega (arith, submit-attempt c)
perform-attempt pop c h = omega (arith, pop_input-attempt c)
perform-attempt (show message error) c h = omega arith
perform-attempt (update value) c h = omega (arith, update_input-attempt value c)
perform-attempt (push value) c h = omega (arith, push_input-attempt value c)
perform-attempt (reply attempt r) c h = omega (arith, receive-attempt attempt r c)
perform-attempt (abandon message) c h = omega (arith, receive-attempt c.attempt (failure message) c)

perform_fits : (o : Op) (c : Conversation) → c.attempt < 2 ^ 64 → (perform o c).attempt < 2 ^ 64
perform_fits o c h = omega (arith, perform-attempt o c h)

run-attempt :
    (os : List Op) (c : Conversation)
    → c.attempt < 2 ^ 64
    → (run os c).attempt ≡ (c.attempt + renewals os) % 2 ^ 64
unfolding run renewals
run-attempt [] c h = omega arith
run-attempt (o ∷ os) c h =
    omega (arith, perform-attempt o c h, run-attempt os (perform o c) (perform_fits o c h))

-- Once an attempt has been followed by another, or invalidated, and by fewer than 2^64 of them, an
-- answer to it has no effect and changes nothing.
pub late_answer_ignored :
    (os : List Op) (c : Conversation) (r : Response)
    → c.attempt < 2 ^ 64
    → 0 < renewals os
    → renewals os < 2 ^ 64
    → receive c.attempt r (run os c) ≡ (run os c, none)
unfolding receive accepts
late_answer_ignored os c r fits some_one few =
    let other : c.attempt == (run os c).attempt ≡ false = ground (arith, run-attempt os c fits) in
    rw other refl

-- Whether an operation returns a response to send.
abbrev pub sends : Op → Conversation → ℕ
sends submitted c = if is_some (submit c).1 then 1 else 0
sends _ c = 0

abbrev pub is_prompt : Option Effect → ℕ
is_prompt (some Effect.prompt) = 1
is_prompt _ = 0

-- Whether an operation accepts a prompt.
abbrev pub asks : Op → Conversation → ℕ
asks (reply attempt r) c = is_prompt (receive attempt r c).1
asks _ c = 0

unfoldable pub sent : List Op → Conversation → ℕ
sent [] c = 0
sent (o ∷ os) c = sends o c + sent os (perform o c)

unfoldable pub asked : List Op → Conversation → ℕ
asked [] c = 0
asked (o ∷ os) c = asks o c + asked os (perform o c)

abbrev pending : Conversation → ℕ
pending c = if is_waiting c.status then 1 else 0

submit_balance : (c : Conversation) → pending (submit c).0 + sends submitted c ≤ pending c
unfolding submit
submit_balance c = ground arith

respond_balance :
    (r : Response) (c : Conversation)
    → pending (respond r c).0 ≤ pending c + is_prompt (some (respond r c).1)
unfolding respond clear_response clear_notice set_notice
respond_balance (Response.prompt secret message) c = omega arith
respond_balance (Response.notice error message) c = omega arith
respond_balance success c = omega arith
respond_balance (failure message) c = omega arith

receive_balance :
    (a : ℕ) (r : Response) (c : Conversation)
    → pending (receive a r c).0 ≤ pending c + is_prompt (receive a r c).1
unfolding receive
receive_balance a r c = elim (Bool-cases (accepts a c)) [
  | inl e ↦ rw e (respond_balance r c)
  | inr e ↦ rw e (omega arith)
]

update_balance : (v : Text) (c : Conversation) → pending (update_input v c).0 ≤ pending c
unfolding update_input
update_balance v c = ground arith

push_balance : (v : Text) (c : Conversation) → pending (push_input v c).0 ≤ pending c
unfolding push_input
push_balance v c = ground arith

pop_balance : (c : Conversation) → pending (pop_input c).0 ≤ pending c
unfolding pop_input
pop_balance c = ground arith

fail_balance : (m : Text) (c : Conversation) → pending (fail m c) ≡ 0
unfolding fail receive accepts respond set_notice clear_response
fail_balance m c = ground arith

perform_balance :
    (o : Op) (c : Conversation) → pending (perform o c) + sends o c ≤ pending c + asks o c
unfolding perform begin_attempt invalidate_attempt clear_response clear_notice set_notice fail
perform_balance begin c = omega arith
perform_balance invalidate c = omega arith
perform_balance clear_reply c = omega arith
perform_balance hide c = omega arith
perform_balance submitted c = omega (arith, submit_balance c)
perform_balance pop c = omega (arith, pop_balance c)
perform_balance (show message error) c = omega arith
perform_balance (update value) c = omega (arith, update_balance value c)
perform_balance (push value) c = omega (arith, push_balance value c)
perform_balance (reply attempt r) c = omega (arith, receive_balance attempt r c)
perform_balance (abandon message) c = omega (arith, fail_balance message c)

balance :
    (os : List Op) (c : Conversation) → pending (run os c) + sent os c ≤ pending c + asked os c
unfolding run sent asked
balance [] c = omega arith
balance (o ∷ os) c = omega (arith, perform_balance o c, balance os (perform o c))

-- In any sequence of operations on a new conversation, no more responses are handed out for sending
-- than prompts were accepted.
pub sent_le_asked : (os : List Op) → sent os new ≤ asked os new
unfolding new
sent_le_asked os = omega (arith, balance os new)
