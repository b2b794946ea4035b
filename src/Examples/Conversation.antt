-- ===== src/Examples/Conversation.antt =====
-- A conversation of src/conversation.rs in which PAM asks for a code, and a late answer.
use genkan.Prelude.{
  ◌<◌, ◌≤◌, true, false, none, some, List, [], ◌∷◌, ◌≡◌, refl, codes, arith, take, ◌++◌, ◌⊎◌,
}
use genkan.Conversation.{
  Conversation, max_text_chars, max_input_bytes, byte_length, append_bounded, bounded_text,
  clean_prompt, Response, waiting, success, new, submit, update_input, push_input, pop_input,
  receive, trim, trim_start_matches, trim_end_matches, drop_last,
}
use genkan.Conversation.Buffer.{append_bounded-take, bounded_text-cases}
use genkan.Conversation.History.{Op, begin, invalidate, submitted, pop, update, push, reply, run}
use genkan.Conversation.Sound.{IsSound, run-IsSound}
use genkan.Conversation.Attempts.{renewals, sent, asked, late_answer_ignored, sent_le_asked}
use genkan.Conversation.Typing.{submit-update_input, pop_input-push_input}

abbrev ask : Response
ask = Response.prompt false (codes "Code: ")

abbrev dialogue : List Op
dialogue =
    begin
    ∷ reply 2 ask
    ∷ update (codes "12")
    ∷ push (codes "3")
    ∷ pop
    ∷ submitted
    ∷ submitted
    ∷ reply 1 success
    ∷ reply 2 success
    ∷ []

-- A conversation that waits for a code.
abbrev asking : Conversation
asking = record {
  input = codes "12";
  prompt = codes "Code";
  message = none;
  message_is_error = false;
  secret = false;
  status = waiting;
  attempt = 2;
}

prompt_is_cleaned : clean_prompt (codes " Code: ") ≡ codes "Code"
unfolding clean_prompt bounded_text trim trim_start_matches trim_end_matches drop_last
prompt_is_cleaned = refl

run-IsSound_example :
    IsSound (run dialogue new) × (byte_length (run dialogue new).input ≤ max_input_bytes)
run-IsSound_example = run-IsSound dialogue

sent_le_asked_example : sent dialogue new ≤ asked dialogue new
sent_le_asked_example = sent_le_asked dialogue

late_answer_ignored_example :
    receive 2 success (run (invalidate ∷ begin ∷ []) asking)
    ≡ (run (invalidate ∷ begin ∷ []) asking, none)
unfolding renewals
late_answer_ignored_example =
    late_answer_ignored (invalidate ∷ begin ∷ []) asking success (omega arith) (omega arith)
      (omega arith)

append_bounded-take_example :
    append_bounded (codes "12") (codes "34") ≡ codes "12" ++ take 510 (codes "34")
append_bounded-take_example = append_bounded-take (codes "12") (codes "34") (omega arith)

bounded_text-cases_example :
    ((4 ≤ max_text_chars) × (bounded_text (codes "Code") ≡ codes "Code"))
    ⊎ ((max_text_chars < 4)
        × (bounded_text (codes "Code") ≡ take 511 (codes "Code") ++ (0x2026 ∷ [])))
bounded_text-cases_example = bounded_text-cases (codes "Code")

submit-update_input_example :
    ((submit (update_input (codes "7") asking).0).1 ≡ some (2, codes "7"))
    × ((submit (submit (update_input (codes "7") asking).0).0).1 ≡ none)
submit-update_input_example = submit-update_input (codes "7") asking refl

pop_input-push_input_example :
    ((push_input (b'3' ∷ []) asking).1 ≡ true)
    × (pop_input (push_input (b'3' ∷ []) asking).0 ≡ (asking, true))
pop_input-push_input_example = pop_input-push_input b'3' asking refl (omega arith)
