-- ===== src/Examples/Protocol.antt =====
-- Messages of crates/lock-auth/src/lib.rs, where the texts are in ASCII.
use genkan.Prelude.{
  ℕ, Bool, true, none, some, if◌then◌else◌, List, [], ◌∷◌, ◌≡◌, refl, ◌≤◌, codes, length, leb, ◌&&◌,
  arith,
}
use genkan.LockAuth.{Message, prompt, info, max_payload_bytes, encode, decode, decode_text}
use genkan.LockAuth.RoundTrip.{FitsFields, is_rereadable, reread, decode-encode, length-encode}

abbrev is_ascii : List ℕ → Bool
is_ascii [] = true
is_ascii (b ∷ bs) = leb b 127 && is_ascii bs

abbrev question : Message
question = prompt 258 true (codes "PIN: ")

abbrev question_bytes : ℕ × List ℕ
question_bytes = (2, 0 ∷ 0 ∷ 0 ∷ 0 ∷ 0 ∷ 0 ∷ 1 ∷ 2 ∷ 1 ∷ codes "PIN: ")

question_encoded : encode question ≡ some question_bytes
unfolding encode
question_encoded = refl

question-FitsFields : FitsFields is_ascii question
question-FitsFields = omega arith

-- A text with a zero byte is encoded, and not decoded.
zero_is_refused : reread is_ascii (info (0 ∷ [])) ≡ none
unfolding encode decode decode_text
zero_is_refused = refl

decode-encode_example :
    reread is_ascii question ≡ (if is_rereadable is_ascii question then some question else none)
decode-encode_example = decode-encode is_ascii question question-FitsFields

length-encode_example : length question_bytes.1 ≤ max_payload_bytes
length-encode_example = length-encode is_ascii question question_bytes tt question_encoded
