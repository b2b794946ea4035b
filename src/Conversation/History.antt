-- ===== src/Conversation/History.antt =====
-- Sequences of the operations of src/conversation.rs, from a conversation just made.
use genkan.Prelude.{ℕ, Bool, List, [], ◌∷◌, Text}
use genkan.Conversation.{
  Response, Conversation, begin_attempt, invalidate_attempt, clear_response, clear_notice,
  set_notice, update_input, push_input, pop_input, submit, receive, fail,
}

pub data Op : Type 0 where
  begin invalidate clear_reply hide submitted pop : Op
  show : Text → Bool → Op
  update push : Text → Op
  reply : ℕ → Response → Op
  abandon : Text → Op

unfoldable pub perform : Op → Conversation → Conversation
perform begin c = begin_attempt c
perform invalidate c = invalidate_attempt c
perform clear_reply c = clear_response c
perform hide c = clear_notice c
perform submitted c = (submit c).0
perform pop c = (pop_input c).0
perform (show message error) c = set_notice message error c
perform (update value) c = (update_input value c).0
perform (push value) c = (push_input value c).0
perform (reply attempt response) c = (receive attempt response c).0
perform (abandon message) c = fail message c

unfoldable pub run : List Op → Conversation → Conversation
unfolding perform
run [] c = c
run (o ∷ os) c = run os (perform o c)
