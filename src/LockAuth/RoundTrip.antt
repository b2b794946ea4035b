-- ===== src/LockAuth/RoundTrip.antt =====
-- Which messages that crates/lock-auth/src/lib.rs encodes it decodes again, and how long they are.
use genkan.Prelude.{
  ℕ, ◌+◌, ◌^◌, ◌≤◌, ◌<◌, Bool, true, false, ◌&&◌, not, Option, none, some, Bool-cases, inl, inr,
  if◌then◌else◌, List, [], ◌∷◌, ◌++◌, ◌>>=◌, ◌≡◌, refl, ap, ◌∙◌, subst, arith, ltb, leb, ◌==◌,
  length, take, drop, any, length-append, take-append, drop-append,
}
use genkan.LockAuth.{
  Message, ready, prompt, info, error, success, failure, response, cancel, retry, begin,
  max_payload_bytes, max_message_bytes, max_response_bytes, to_be_bytes, secret, text_payload,
  push_text, encode, decode, decode_text, decode_ready, decode_flagged, decode_response, from_bool,
}
use genkan.LockAuth.Numbers.{to_be_bytes-length, from_be-to_be_bytes, above-u32, above-u64}

abbrev pub has_nul : List ℕ → Bool
has_nul = any (λ b. b == 0)

module _ (is_utf8 : List ℕ → Bool) where
  -- A text of a bounded length, valid and without a zero byte.
  abbrev pub IsText : List ℕ → Type 0
  IsText t = (is_utf8 t ≡ true) × (has_nul t ≡ false) × (length t ≤ max_message_bytes)

  -- What the types of the fields, and `Secret::new`, promise of a message, with texts that can be
  -- read back.
  abbrev pub IsSendable : Message → Type 0
  IsSendable (ready uid username) = (uid < 2 ^ 32) × IsText username
  IsSendable (prompt id hidden text) = (id < 2 ^ 64) × IsText text
  IsSendable (info text) = IsText text
  IsSendable (error text) = IsText text
  IsSendable (response id value) =
      (id < 2 ^ 64) × (has_nul value ≡ false) × (length value ≤ max_response_bytes)
  IsSendable _ = Unit {0}

  -- The value of a response is one that `Secret::new` accepts.
  abbrev pub HasSecret : Message → Type 0
  HasSecret (response id value) = secret value ≡ some value
  HasSecret _ = Unit {0}

  -- The numbers are within the types of the fields.
  abbrev pub FitsFields : Message → Type 0
  FitsFields (ready uid username) = uid < 2 ^ 32
  FitsFields (prompt id hidden text) = id < 2 ^ 64
  FitsFields (response id value) = (id < 2 ^ 64) × (secret value ≡ some value)
  FitsFields _ = Unit {0}

  abbrev pub is_readable : List ℕ → Bool
  is_readable t = is_utf8 t && (not (has_nul t) && leb (length t) max_message_bytes)

  -- The text of the message, if it has one.
  abbrev pub is_rereadable : Message → Bool
  is_rereadable (ready uid username) = is_readable username
  is_rereadable (prompt id hidden text) = is_readable text
  is_rereadable (info text) = is_readable text
  is_rereadable (error text) = is_readable text
  is_rereadable _ = true

  decode_text-IsText : (t : List ℕ) → IsText t → decode_text is_utf8 t max_message_bytes ≡ some t
  unfolding decode_text
  decode_text-IsText t h = ground (arith, h.0, h.1, h.2)

  within : (t : List ℕ) → length t ≤ max_message_bytes → ltb max_message_bytes (length t) ≡ false
  within t h = ground (arith, h)

  take_bytes :
      (width n : ℕ) (t : List ℕ) → take width (to_be_bytes width n ++ t) ≡ to_be_bytes width n
  take_bytes width n t =
      subst (λ w. take w (to_be_bytes width n ++ t) ≡ to_be_bytes width n)
        (to_be_bytes-length width n) (take-append (to_be_bytes width n) t)

  drop_bytes : (width n : ℕ) (t : List ℕ) → drop width (to_be_bytes width n ++ t) ≡ t
  drop_bytes width n t =
      subst (λ w. drop w (to_be_bytes width n ++ t) ≡ t) (to_be_bytes-length width n)
        (drop-append (to_be_bytes width n) t)

  decode_ready-bytes :
      (uid : ℕ) (t : List ℕ)
      → uid < 2 ^ 32
      → IsText t
      → decode_ready is_utf8 (to_be_bytes 4 uid ++ t) ≡ some (ready uid t)
  unfolding decode_ready
  decode_ready-bytes uid t u h =
      let long : leb 4 (length (to_be_bytes 4 uid ++ t)) ≡ true =
        ground (arith, length-append (to_be_bytes 4 uid) t, to_be_bytes-length 4 uid) in
      rw
        (
          long,
          drop_bytes 4 uid t,
          take_bytes 4 uid t,
          decode_text-IsText t h,
          from_be-to_be_bytes 4 uid (above-u32 uid u),
        )
        refl

  decode_flagged-text :
      (id : ℕ) (hidden : Bool) (t : List ℕ)
      → IsText t
      → decode_flagged is_utf8 id (from_bool hidden ∷ t) ≡ some (prompt id hidden t)
  unfolding decode_flagged
  decode_flagged-text id true t h = rw (decode_text-IsText t h) refl
  decode_flagged-text id false t h = rw (decode_text-IsText t h) refl

  decode_response-bytes :
      (id : ℕ) (v : List ℕ)
      → id < 2 ^ 64
      → has_nul v ≡ false
      → length v ≤ max_response_bytes
      → decode_response is_utf8 (to_be_bytes 8 id ++ v) ≡ some (response id v)
  unfolding decode_response secret
  decode_response-bytes id v u n s =
      let size = length-append (to_be_bytes 8 id) v in
      let width = to_be_bytes-length 8 id in
      let long : leb 8 (length (to_be_bytes 8 id ++ v)) ≡ true = ground (arith, size, width) in
      let short : leb (length (to_be_bytes 8 id ++ v)) (8 + max_response_bytes) ≡ true =
        ground (arith, size, width, s) in
      let fits : ltb max_response_bytes (length v) ≡ false = ground (arith, s) in
      rw
        (
          long,
          short,
          drop_bytes 8 id v,
          n,
          fits,
          take_bytes 8 id v,
          from_be-to_be_bytes 8 id (above-u64 id u),
        )
        refl

  -- The result of `decode` on the result of `encode`.
  abbrev pub reread : Message → Option Message
  reread m = encode m >>= λ x. decode is_utf8 x.0 x.1

  sendable-reread : (m : Message) → IsSendable m → reread m ≡ some m
  unfolding encode decode push_text text_payload
  sendable-reread (ready uid username) (u, h) =
      rw (within username h.2) (decode_ready-bytes uid username u h)
  sendable-reread (prompt id hidden text) (u, h) = rw (within text h.2) (
      ap (λ i. decode_flagged is_utf8 i (from_bool hidden ∷ text))
        (from_be-to_be_bytes 8 id (above-u64 id u))
      ∙ decode_flagged-text id hidden text h)
  sendable-reread (info text) h = rw (within text h.2, decode_text-IsText text h) refl
  sendable-reread (error text) h = rw (within text h.2, decode_text-IsText text h) refl
  sendable-reread (response id value) (u, n, s) = decode_response-bytes id value u n s
  sendable-reread success h = refl
  sendable-reread failure h = refl
  sendable-reread cancel h = refl
  sendable-reread retry h = refl
  sendable-reread begin h = refl

  readable-IsText : (t : List ℕ) → is_readable t ≡ true → IsText t
  readable-IsText t h = (ground arith, ground arith, ground (arith, h))

  unreadable : (t : List ℕ) → is_readable t ≡ false → decode_text is_utf8 t max_message_bytes ≡ none
  unfolding decode_text
  unreadable t h = ground (arith, h)

  readable-IsSendable : (m : Message) → FitsFields m → is_rereadable m ≡ true → IsSendable m
  unfolding secret
  readable-IsSendable (ready uid username) u h = (u, readable-IsText username h)
  readable-IsSendable (prompt id hidden text) u h = (u, readable-IsText text h)
  readable-IsSendable (info text) u h = readable-IsText text h
  readable-IsSendable (error text) u h = readable-IsText text h
  readable-IsSendable (response id value) (u, k) h = (u, ground (arith, k), ground (arith, k))
  readable-IsSendable success u h = tt
  readable-IsSendable failure u h = tt
  readable-IsSendable cancel u h = tt
  readable-IsSendable retry u h = tt
  readable-IsSendable begin u h = tt

  if_none : (b : Bool) (x : Option Message) → x ≡ none → (if b then none else x) ≡ none
  if_none true x e = refl
  if_none false x e = e

  ready-unreadable :
      (uid : ℕ) (t : List ℕ)
      → is_readable t ≡ false
      → decode_ready is_utf8 (to_be_bytes 4 uid ++ t) ≡ none
  unfolding decode_ready
  ready-unreadable uid t h =
      let long : leb 4 (length (to_be_bytes 4 uid ++ t)) ≡ true =
        ground (arith, length-append (to_be_bytes 4 uid) t, to_be_bytes-length 4 uid) in
      rw (long, drop_bytes 4 uid t, unreadable t h) refl

  flagged-unreadable :
      (id : ℕ) (hidden : Bool) (t : List ℕ)
      → is_readable t ≡ false
      → decode_flagged is_utf8 id (from_bool hidden ∷ t) ≡ none
  unfolding decode_flagged
  flagged-unreadable id true t h = rw (unreadable t h) refl
  flagged-unreadable id false t h = rw (unreadable t h) refl

  unreadable-reread : (m : Message) → is_rereadable m ≡ false → reread m ≡ none
  unfolding encode decode push_text text_payload
  unreadable-reread (ready uid username) h =
      elim (Bool-cases (ltb max_message_bytes (length username))) [
        | inl e ↦ rw e refl
        | inr e ↦ rw e (ready-unreadable uid username h)
      ]
  unreadable-reread (prompt id hidden text) h =
      elim (Bool-cases (ltb max_message_bytes (length text))) [
        | inl e ↦ rw e refl
        | inr e ↦ rw e (flagged-unreadable _ hidden text h)
      ]
  unreadable-reread (info text) h = elim (Bool-cases (ltb max_message_bytes (length text))) [
    | inl e ↦ rw e refl
    | inr e ↦ rw (e, unreadable text h) refl
  ]
  unreadable-reread (error text) h = elim (Bool-cases (ltb max_message_bytes (length text))) [
    | inl e ↦ rw e refl
    | inr e ↦ rw (e, unreadable text h) refl
  ]
  unreadable-reread (response id value) h = ground arith
  unreadable-reread success h = ground arith
  unreadable-reread failure h = ground arith
  unreadable-reread cancel h = ground arith
  unreadable-reread retry h = ground arith
  unreadable-reread begin h = ground arith

  -- For a message whose numbers fit their fields, and whose response is one that `Secret::new`
  -- accepts: if its text is valid, free of zero bytes and at most 4096 bytes long, or it has none,
  -- it is encoded and decoding gives it back; otherwise `encode` or `decode` refuses it.
  pub decode-encode :
      (m : Message) → FitsFields m → reread m ≡ (if is_rereadable m then some m else none)
  decode-encode m u = elim (Bool-cases (is_rereadable m)) [
    | inl e ↦ rw e (sendable-reread m (readable-IsSendable m u e))
    | inr e ↦ rw e (unreadable-reread m e)
  ]

  pushed-fits :
      (p t : List ℕ) (kind : ℕ) (x : ℕ × List ℕ)
      → (push_text p t max_message_bytes >>= λ payload. some (kind, payload)) ≡ some x
      → length x.1 ≤ length p + max_message_bytes
  unfolding push_text
  pushed-fits p t kind x e = ground (arith, length-append p t)

  text-fits :
      (t : List ℕ) (kind : ℕ) (x : ℕ × List ℕ)
      → (text_payload t >>= λ payload. some (kind, payload)) ≡ some x
      → length x.1 ≤ max_message_bytes
  unfolding text_payload
  text-fits t kind x e = ground arith

  -- Whatever `encode` gives for a message, with a response that `Secret::new` accepts and any other
  -- texts, its payload is within the limit that the channel sets.
  pub length-encode :
      (m : Message) (x : ℕ × List ℕ)
      → HasSecret m
      → encode m ≡ some x
      → length x.1 ≤ max_payload_bytes
  unfolding encode secret
  length-encode (ready uid username) x h e =
      omega (arith, pushed-fits (to_be_bytes 4 uid) username 1 x e, to_be_bytes-length 4 uid)
  length-encode (prompt id hidden text) x h e = omega (
    arith,
    pushed-fits (to_be_bytes 8 id ++ (from_bool hidden ∷ [])) text 2 x e,
    length-append (to_be_bytes 8 id) (from_bool hidden ∷ []),
    to_be_bytes-length 8 id,
  )
  length-encode (info text) x h e = omega (arith, text-fits text 3 x e)
  length-encode (error text) x h e = omega (arith, text-fits text 4 x e)
  length-encode (response id value) x h e =
      ground (arith, h, length-append (to_be_bytes 8 id) value, to_be_bytes-length 8 id)
  length-encode success x h e = ground arith
  length-encode failure x h e = ground arith
  length-encode cancel x h e = ground arith
  length-encode retry x h e = ground arith
  length-encode begin x h e = ground arith
