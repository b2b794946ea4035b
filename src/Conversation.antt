-- ===== src/Conversation.antt =====
-- src/conversation.rs: one PAM conversation, with the response that is being typed. Text is the
-- list of its code points. Overwriting memory with zeros is not visible in the model.
pub mod Buffer
pub mod History
pub mod Sound
pub mod Attempts
pub mod Typing
use genkan.Prelude.{
  ℕ, suc, ◌+◌, ◌%◌, ◌^◌, Bool, true, false, ◌&&◌, ◌||◌, not, Option, none, some, List, [], ◌∷◌,
  ◌++◌, Text, codes, ltb, leb, ◌==◌, if◌then◌else◌, length, take, get_elem?, is_some,
}
use mathlib.Core.List.{reverse}
use mathlib.Core.Option

abbrev pub max_text_chars : ℕ
max_text_chars = 512

abbrev pub max_input_bytes : ℕ
max_input_bytes = 2048

pub data Status : Type 0 where
  waiting submitting succeeded failed : Status

pub data Response : Type 0 where
  prompt : Bool → Text → Response
  notice : Bool → Text → Response
  success : Response
  failure : Text → Response

pub data Effect : Type 0 where
  prompt notice authenticated failed : Effect

-- An `Attempt` is a `u64`.
pub record Conversation : Type 0 where
  pub input : Text
  pub prompt : Text
  pub message : Option Text
  pub message_is_error : Bool
  pub secret : Bool
  pub status : Status
  pub attempt : ℕ

-- `char::len_utf8`.
unfoldable pub len_utf8 : ℕ → ℕ
len_utf8 c = if ltb c 128 then 1 else if ltb c 2048 then 2 else if ltb c 65536 then 3 else 4

unfoldable pub byte_length : Text → ℕ
unfolding len_utf8
byte_length [] = 0
byte_length (c ∷ cs) = len_utf8 c + byte_length cs

-- The loop of `append_bounded`, with the characters counted so far.
unfoldable pub append_from : ℕ → Text → Text → Text
append_from characters target [] = target
append_from characters target (c ∷ cs) =
    let rest = append_from (suc characters) (target ++ (c ∷ [])) cs in
    if characters == max_text_chars || ltb max_input_bytes (byte_length target + len_utf8 c)
    then target
    else rest

unfoldable pub append_bounded : Text → Text → Text
append_bounded target value = append_from (length target) target value

-- `char::is_whitespace`.
abbrev pub is_whitespace : ℕ → Bool
is_whitespace c =
    (leb 9 c && leb c 13)
    || (c == 32
        || (c == 0x85
            || (c == 0xa0
                || (c == 0x1680
                    || ((leb 0x2000 c && leb c 0x200a)
                        || (c == 0x2028
                            || (c == 0x2029 || (c == 0x202f || (c == 0x205f || c == 0x3000)))))))))

unfoldable pub trim_start_matches : (ℕ → Bool) → Text → Text
trim_start_matches p [] = []
trim_start_matches p (c ∷ cs) = let rest = trim_start_matches p cs in if p c then rest else c ∷ cs

unfoldable pub trim_end_matches : (ℕ → Bool) → Text → Text
trim_end_matches p s = reverse (trim_start_matches p (reverse s))

unfoldable pub trim : Text → Text
trim s = trim_end_matches is_whitespace (trim_start_matches is_whitespace s)

-- `String::pop`.
unfoldable pub drop_last : Text → Text
drop_last [] = []
drop_last (c ∷ []) = []
drop_last (c ∷ d ∷ cs) = c ∷ drop_last (d ∷ cs)

unfoldable pub bounded_text : Text → Text
unfolding drop_last
bounded_text value =
    let bounded = take max_text_chars value in
    if is_some (get_elem? value max_text_chars) then drop_last bounded ++ (0x2026 ∷ []) else bounded

abbrev or_password : Text → Text
or_password [] = codes "Password"
or_password (c ∷ cs) = c ∷ cs

unfoldable pub clean_prompt : Text → Text
clean_prompt value =
    bounded_text (or_password (trim (trim_end_matches (λ c. c == b':') (trim value))))

unfoldable pub next_attempt : ℕ → ℕ
next_attempt a = (a + 1) % 2 ^ 64

unfoldable pub new : Conversation
new = record {
  input = [];
  prompt = codes "Password";
  message = none;
  message_is_error = false;
  secret = true;
  status = submitting;
  attempt = 1;
}

unfoldable pub clear_response : Conversation → Conversation
clear_response c = record c { input = [] }

unfoldable pub clear_notice : Conversation → Conversation
clear_notice c = record c { message = none; message_is_error = false }

unfoldable pub set_notice : Text → Bool → Conversation → Conversation
set_notice message error c = record c {
  message = some (bounded_text message);
  message_is_error = error;
}

unfoldable pub begin_attempt : Conversation → Conversation
unfolding next_attempt clear_response clear_notice
begin_attempt c =
    record (clear_notice (clear_response (record c { attempt = next_attempt c.attempt }))) {
      status = submitting;
    }

unfoldable pub invalidate_attempt : Conversation → Conversation
unfolding next_attempt clear_response
invalidate_attempt c = clear_response (record c { attempt = next_attempt c.attempt })

unfoldable pub accepts : ℕ → Conversation → Bool
accepts attempt c = attempt == c.attempt

unfoldable pub for_preview : Text → Text → Option Text → Bool → Bool → Status → Conversation
for_preview input shown message message_is_error secret status = record {
  input = append_bounded [] input;
  prompt = clean_prompt shown;
  message = Option.map bounded_text message;
  message_is_error = message_is_error;
  secret = secret;
  status = status;
  attempt = 1;
}

abbrev pub is_waiting : Status → Bool
is_waiting waiting = true
is_waiting _ = false

-- Input is edited only while the conversation waits for it. The Boolean is the method's result.
unfoldable pub update_input : Text → Conversation → Conversation × Bool
unfolding clear_response
update_input value c =
    if not (is_waiting c.status)
    then (c, false)
    else (record c { input = append_bounded [] value }, true)

unfoldable pub push_input : Text → Conversation → Conversation × Bool
push_input value c =
    let input = append_bounded c.input value in
    if not (is_waiting c.status)
    then (c, false)
    else (record c { input = input }, not (byte_length input == byte_length c.input))

abbrev is_empty : Text → Bool
is_empty [] = true
is_empty (_ ∷ _) = false

unfoldable pub pop_input : Conversation → Conversation × Bool
pop_input c =
    if not (is_waiting c.status) || is_empty c.input
    then (c, false)
    else (record c { input = drop_last c.input }, true)

unfoldable pub submit : Conversation → Conversation × Option (ℕ × Text)
submit c =
    if not (is_waiting c.status)
    then (c, none)
    else (record c { status = submitting; input = [] }, some (c.attempt, c.input))

unfoldable pub respond : Response → Conversation → Conversation × Effect
unfolding clear_response clear_notice set_notice
respond (Response.prompt secret message) c = (
  record (clear_response c) { prompt = clean_prompt message; secret = secret; status = waiting },
  Effect.prompt,
)
respond (Response.notice error message) c = (set_notice message error c, Effect.notice)
respond success c = (record (clear_notice (clear_response c)) { status = succeeded }, authenticated)
respond (failure message) c = (
  record (set_notice message true
      (record (clear_response c) { prompt = codes "Password"; secret = true })) {
        status = Status.failed;
      },
  Effect.failed,
)

unfoldable pub receive : ℕ → Response → Conversation → Conversation × Option Effect
unfolding accepts respond
receive attempt response c =
    let (c', effect) = respond response c in
    if not (accepts attempt c) then (c, none) else (c', some effect)

unfoldable pub fail : Text → Conversation → Conversation
unfolding receive
fail message c = (receive c.attempt (failure message) c).0
