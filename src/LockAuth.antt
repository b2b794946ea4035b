-- ===== src/LockAuth.antt =====
-- crates/lock-auth/src/lib.rs: the messages between the locker and its PAM worker, and their bytes.
-- A text is the list of its UTF-8 bytes; `String::from_utf8` is a parameter that tells valid bytes.
-- Errors of the protocol are `none`.
pub mod Numbers
pub mod RoundTrip
use genkan.Prelude.{
  ℕ, zero, suc, ◌+◌, ◌*◌, ◌/◌, ◌%◌, ◌^◌, Bool, true, false, ◌&&◌, ◌||◌, not, Option, none, some,
  List, [], ◌∷◌, ◌++◌, ◌>>=◌, codes, ltb, leb, ◌==◌, if◌then◌else◌, length, take, drop, any,
}

abbrev pub max_payload_bytes : ℕ
max_payload_bytes = 16384

abbrev pub max_response_bytes : ℕ
max_response_bytes = 8192

abbrev pub max_message_bytes : ℕ
max_message_bytes = 4096

pub data Message : Type 0 where
  ready : ℕ → List ℕ → Message
  prompt : ℕ → Bool → List ℕ → Message
  info error : List ℕ → Message
  success failure : Message
  response : ℕ → List ℕ → Message
  cancel retry begin : Message

-- `to_be_bytes` of a number of a width in bytes.
unfoldable pub to_be_bytes : ℕ → ℕ → List ℕ
to_be_bytes zero n = []
to_be_bytes (suc width) n = to_be_bytes width (n / 256) ++ (n % 256 ∷ [])

unfoldable pub from_be : ℕ → List ℕ → ℕ
from_be high [] = high
from_be high (b ∷ bs) = from_be (high * 256 + b) bs

abbrev pub from_be_bytes : List ℕ → ℕ
from_be_bytes = from_be 0

-- `Secret::new`.
unfoldable pub secret : List ℕ → Option (List ℕ)
secret value =
    if ltb max_response_bytes (length value) || any (λ b. b == 0) value then none else some value

unfoldable pub text_payload : List ℕ → Option (List ℕ)
text_payload text = if ltb max_message_bytes (length text) then none else some text

unfoldable pub push_text : List ℕ → List ℕ → ℕ → Option (List ℕ)
push_text payload text maximum = if ltb maximum (length text) then none else some (payload ++ text)

abbrev pub from_bool : Bool → ℕ
from_bool false = 0
from_bool true = 1

-- A message as its kind and its payload.
unfoldable pub encode : Message → Option (ℕ × List ℕ)
unfolding to_be_bytes push_text text_payload
encode (ready uid username) =
    push_text (to_be_bytes 4 uid) username max_message_bytes >>= λ payload. some (1, payload)
encode (prompt id hidden text) =
    push_text (to_be_bytes 8 id ++ (from_bool hidden ∷ [])) text max_message_bytes >>= λ payload.
    some (2, payload)
encode (info text) = text_payload text >>= λ payload. some (3, payload)
encode (error text) = text_payload text >>= λ payload. some (4, payload)
encode success = some (5, [])
encode failure = some (6, [])
encode (response id value) = some (7, to_be_bytes 8 id ++ value)
encode cancel = some (8, [])
encode retry = some (9, [])
encode begin = some (10, [])

abbrev when_empty : List ℕ → Message → Option Message
when_empty [] m = some m
when_empty (b ∷ bs) m = none

module _ (is_utf8 : List ℕ → Bool) where
  unfoldable pub decode_text : List ℕ → ℕ → Option (List ℕ)
  decode_text payload maximum =
      if ltb maximum (length payload) || any (λ b. b == 0) payload
      then none
      else if is_utf8 payload
      then some payload
      else none

  unfoldable pub decode_ready : List ℕ → Option Message
  decode_ready payload =
      if leb 4 (length payload)
      then (decode_text (drop 4 payload) max_message_bytes >>= λ username.
          some (ready (from_be_bytes (take 4 payload)) username))
      else none

  -- The number of the prompt, its flag and the rest.
  unfoldable pub decode_flagged : ℕ → List ℕ → Option Message
  decode_flagged id [] = none
  decode_flagged id (flag ∷ text) =
      if leb flag 1
      then (decode_text text max_message_bytes >>= λ t. some (prompt id (flag == 1) t))
      else none

  unfoldable pub decode_response : List ℕ → Option Message
  unfolding secret
  decode_response payload =
      if leb 8 (length payload)
        && (leb (length payload) (8 + max_response_bytes)
            && not (any (λ b. b == 0) (drop 8 payload)))
      then (secret (drop 8 payload) >>= λ value.
          some (response (from_be_bytes (take 8 payload)) value))
      else none

  -- The payload of each kind.
  unfoldable pub decode : ℕ → List ℕ → Option Message
  decode kind payload =
      if kind == 1
      then decode_ready payload
      else if kind == 2
      then decode_flagged (from_be_bytes (take 8 payload)) (drop 8 payload)
      else if kind == 3
      then (decode_text payload max_message_bytes >>= λ text. some (info text))
      else if kind == 4
      then (decode_text payload max_message_bytes >>= λ text. some (error text))
      else if kind == 5
      then when_empty payload success
      else if kind == 6
      then when_empty payload failure
      else if kind == 7
      then decode_response payload
      else if kind == 8
      then when_empty payload cancel
      else if kind == 9
      then when_empty payload retry
      else if kind == 10
      then when_empty payload begin
      else none
