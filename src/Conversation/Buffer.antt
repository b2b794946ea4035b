-- ===== src/Conversation/Buffer.antt =====
-- The bounds of src/conversation.rs on text that comes from outside.
use genkan.Prelude.{
  ℕ, zero, suc, ◌+◌, ◌-◌, ◌*◌, ◌≤◌, ◌<◌, false, [], ◌∷◌, ◌++◌, ◌≡◌, refl, sym, ap, ◌∙◌, ◌⊎◌, inl,
  inr, arith, Text, length, take, length-append, length-take, take-nil, ltb, ◌==◌, Bool-cases,
  get_elem?, is_some, if◌then◌else◌,
}
use mathlib.Core.List.{append_assoc, append-nil}
use genkan.Conversation.{
  max_text_chars, max_input_bytes, len_utf8, byte_length, append_from, append_bounded, bounded_text,
  drop_last,
}

pub len_utf8_bounds : (c : ℕ) → (1 ≤ len_utf8 c) × (len_utf8 c ≤ 4)
unfolding len_utf8
len_utf8_bounds c = ground arith

pub byte_length-append : (s t : Text) → byte_length (s ++ t) ≡ byte_length s + byte_length t
unfolding byte_length
byte_length-append [] t = omega arith
byte_length-append (c ∷ s) t = omega (arith, byte_length-append s t)

-- UTF-8 takes four bytes for a character at most.
pub byte_length-le : (s : Text) → byte_length s ≤ 4 * length s
unfolding byte_length
byte_length-le [] = omega arith
byte_length-le (c ∷ s) = omega (arith, len_utf8_bounds c, byte_length-le s)

-- The limit on bytes never stops the loop: at most four bytes for each of 511 characters leave room
-- for one more.
bytes_never_stop :
    (target : Text) (c : ℕ)
    → length target < max_text_chars
    → ltb max_input_bytes (byte_length target + len_utf8 c) ≡ false
bytes_never_stop target c h = ground (arith, byte_length-le target, len_utf8_bounds c)

append_from-take :
    (characters : ℕ) (target value : Text)
    → characters ≡ length target
    → characters ≤ max_text_chars
    → append_from characters target value ≡ target ++ take (max_text_chars - characters) value
unfolding append_from
append_from-take n target [] e h = sym (rw (take-nil (max_text_chars - n)) (append-nil target))
append_from-take n target (c ∷ cs) e h = elim (Bool-cases (n == max_text_chars)) [
  | inl full ↦
      let none_left : max_text_chars - n ≡ 0 = ground arith in
      rw (full, none_left) (sym (append-nil target))
  | inr room ↦
      let one_more : max_text_chars - n ≡ suc (max_text_chars - suc n) = ground arith in
      rw (room, bytes_never_stop target c (ground arith), one_more)
        (append_from-take (suc n) (target ++ (c ∷ [])) cs
            (omega (arith, e, length-append target (c ∷ []))) (ground arith)
          ∙ append_assoc target (c ∷ []) (take (max_text_chars - suc n) cs))
]

-- Input grows by the characters of the value that still fit, 512 in all; the limit of 2048 bytes
-- never cuts a character off before that.
pub append_bounded-take :
    (target value : Text)
    → length target ≤ max_text_chars
    → append_bounded target value ≡ target ++ take (max_text_chars - length target) value
unfolding append_bounded
append_bounded-take target value h = append_from-take (length target) target value refl h

pub append_bounded-length :
    (target value : Text)
    → length target ≤ max_text_chars
    → length (append_bounded target value) ≤ max_text_chars
append_bounded-length target value h = rw (append_bounded-take target value h) (
    omega (
      arith,
      h,
      length-append target (take (max_text_chars - length target) value),
      length-take (max_text_chars - length target) value,
    ))

pub drop_last-length : (s : Text) → length (drop_last s) ≡ length s - 1
unfolding drop_last
drop_last-length [] = refl
drop_last-length (c ∷ []) = refl
drop_last-length (c ∷ d ∷ s) = omega (arith, drop_last-length (d ∷ s))

drop_last-take : (n : ℕ) (s : Text) → suc n ≤ length s → drop_last (take (suc n) s) ≡ take n s
unfolding drop_last
drop_last-take n [] h = ground arith
drop_last-take zero (c ∷ s) h = refl
drop_last-take (suc n) (c ∷ []) h = ground arith
drop_last-take (suc n) (c ∷ d ∷ s) h = ap (◌∷◌ c) (drop_last-take n (d ∷ s) (omega (arith, h)))

is_some-get : (n : ℕ) (s : Text) → is_some (get_elem? s n) ≡ ltb n (length s)
is_some-get n [] = ground arith
is_some-get zero (c ∷ s) = ground arith
is_some-get (suc n) (c ∷ s) = is_some-get n s ∙ ground arith

take-all : (n : ℕ) (s : Text) → length s ≤ n → take n s ≡ s
take-all n [] h = take-nil n
take-all zero (c ∷ s) h = ground arith
take-all (suc n) (c ∷ s) h = ap (◌∷◌ c) (take-all n s (omega (arith, h)))

cut_cases :
    (n : ℕ) (s t : Text)
    → ((length s ≤ suc n)
        × ((if is_some (get_elem? s (suc n))
              then drop_last (take (suc n) s) ++ t
              else take (suc n) s)
            ≡ s))
      ⊎ ((suc n < length s)
          × ((if is_some (get_elem? s (suc n))
                then drop_last (take (suc n) s) ++ t
                else take (suc n) s)
              ≡ take n s ++ t))
cut_cases n s t = elim (Bool-cases (ltb (suc n) (length s))) [
  | inl long ↦
      rw (is_some-get (suc n) s, long)
        (inr (ground arith, ap (λ u. u ++ t) (drop_last-take n s (ground arith))))
  | inr short ↦
      rw (is_some-get (suc n) s, short) (inl (ground arith, take-all (suc n) s (ground arith)))
]

-- Text that is too long keeps its first 511 characters and ends in an ellipsis; all other text is
-- kept.
pub bounded_text-cases :
    (value : Text)
    → ((length value ≤ max_text_chars) × (bounded_text value ≡ value))
      ⊎ ((max_text_chars < length value) × (bounded_text value ≡ take 511 value ++ (0x2026 ∷ [])))
unfolding bounded_text
bounded_text-cases value = cut_cases 511 value (0x2026 ∷ [])

pub bounded_text-length : (value : Text) → length (bounded_text value) ≤ max_text_chars
bounded_text-length value = elim (bounded_text-cases value) [
  | inl (short, e) ↦ rw e short
  | inr (long, e) ↦
      rw e (omega (arith, length-append (take 511 value) (0x2026 ∷ []), length-take 511 value))
]
