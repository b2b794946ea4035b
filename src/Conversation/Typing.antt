-- ===== src/Conversation/Typing.antt =====
-- The editing of a response in src/conversation.rs.
use genkan.Prelude.{
  ℕ, suc, ◌-◌, ◌<◌, true, false, none, some, [], ◌∷◌, ◌++◌, ◌≡◌, refl, ap, ◌∙◌, arith, Text, length,
  take, ◌==◌, take-nil,
}
use genkan.Conversation.{
  submitting, max_text_chars, Conversation, append_bounded, is_waiting, is_empty, byte_length,
  update_input, push_input, drop_last, pop_input, submit,
}
use genkan.Conversation.Buffer.{append_bounded-take, byte_length-append, len_utf8_bounds}

update_waiting :
    (value : Text) (c : Conversation)
    → is_waiting c.status ≡ true
    → update_input value c ≡ (record c { input = append_bounded [] value }, true)
unfolding update_input
update_waiting value c waits = rw waits refl

submit_waiting :
    (c : Conversation)
    → is_waiting c.status ≡ true
    → submit c ≡ (record c { status = submitting; input = [] }, some (c.attempt, c.input))
unfolding submit
submit_waiting c waits = rw waits refl

submit_again : (c : Conversation) → (submit (record c { status = submitting; input = [] })).1 ≡ none
unfolding submit
submit_again c = refl

-- While a conversation waits, what is submitted after an edit is the first 512 characters of that
-- edit, for the attempt in progress; a second submission yields nothing.
pub submit-update_input :
    (value : Text) (c : Conversation)
    → is_waiting c.status ≡ true
    → ((submit (update_input value c).0).1 ≡ some (c.attempt, take max_text_chars value))
      × ((submit (submit (update_input value c).0).0).1 ≡ none)
submit-update_input value c waits =
    let edited = record c { input = append_bounded [] value } in
    rw (update_waiting value c waits, submit_waiting edited waits)
      (
        ap (λ s. some (c.attempt, s)) (append_bounded-take [] value (omega arith)),
        submit_again edited,
      )

drop_last-snoc : (s : Text) (x : ℕ) → drop_last (s ++ (x ∷ [])) ≡ s
unfolding drop_last
drop_last-snoc [] x = refl
drop_last-snoc (y ∷ []) x = refl
drop_last-snoc (y ∷ z ∷ s) x = ap (◌∷◌ y) (drop_last-snoc (z ∷ s) x)

is_empty-snoc : (s : Text) (x : ℕ) → is_empty (s ++ (x ∷ [])) ≡ false
is_empty-snoc [] x = refl
is_empty-snoc (y ∷ s) x = refl

append_one :
    (x : ℕ) (s : Text) → length s < max_text_chars → append_bounded s (x ∷ []) ≡ s ++ (x ∷ [])
append_one x s h =
    let room : max_text_chars - length s ≡ suc (max_text_chars - suc (length s)) = ground arith in
    append_bounded-take s (x ∷ []) (omega (arith, h))
    ∙ ap (s ++◌) (rw room (ap (◌∷◌ x) (take-nil (max_text_chars - suc (length s)))))

push_waiting :
    (x : ℕ) (c : Conversation)
    → is_waiting c.status ≡ true
    → length c.input < max_text_chars
    → push_input (x ∷ []) c ≡ (record c { input = c.input ++ (x ∷ []) }, true)
unfolding push_input byte_length
push_waiting x c waits h =
    let longer : (byte_length (c.input ++ (x ∷ [])) == byte_length c.input) ≡ false =
      ground (arith, byte_length-append c.input (x ∷ []), len_utf8_bounds x) in
    rw (waits, append_one x c.input h, longer) refl

pop_snoc :
    (x : ℕ) (s : Text) (c : Conversation)
    → is_waiting c.status ≡ true
    → pop_input (record c { input = s ++ (x ∷ []) }) ≡ (record c { input = s }, true)
unfolding pop_input
pop_snoc x s c waits = rw (waits, is_empty-snoc s x, drop_last-snoc s x) refl

-- While a conversation waits with fewer than 512 characters, a character that is pushed changes the
-- input and popping it restores the conversation.
pub pop_input-push_input :
    (x : ℕ) (c : Conversation)
    → is_waiting c.status ≡ true
    → length c.input < max_text_chars
    → ((push_input (x ∷ []) c).1 ≡ true) × (pop_input (push_input (x ∷ []) c).0 ≡ (c, true))
pop_input-push_input x c waits h = rw (push_waiting x c waits h) (refl, pop_snoc x c.input c waits)
