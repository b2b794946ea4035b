-- ===== src/Accounts/Labels.antt =====
-- The labels of accounts in src/accounts.rs.
use genkan.Prelude.{
  ℕ, zero, suc, ◌+◌, ◌≤◌, Bool, true, false, ◌&&◌, not, some, List, [], ◌∷◌, Text, length, take,
  keep_if, length-take, ◌≡◌, refl, sym, ◌∙◌, subst, arith, All, if◌then◌else◌,
}
use genkan.Conversation.{is_whitespace, trim_start_matches, trim_end_matches}
use mathlib.Core.List.{reverse, reverse_aux}
use genkan.Accounts.{max_label_chars, is_control, presentation_label, non_empty, words_from, spaced}

module _ {ℓ} {A : Type ℓ} where
  All-if :
      (P : A → Type 0) (b : Bool) (xs ys : List A)
      → (b ≡ true → All P xs)
      → All P ys
      → All P (if b then xs else ys)
  All-if P true xs ys h k = h refl
  All-if P false xs ys h k = k

  All-keep_if : (p : A → Bool) (xs : List A) → All (λ x. p x ≡ true) (keep_if p xs)
  All-keep_if p [] = tt
  All-keep_if p (x ∷ xs) =
      All-if (λ y. p y ≡ true) (p x) (x ∷ keep_if p xs) (keep_if p xs) (λ e. (e, All-keep_if p xs))
        (All-keep_if p xs)

  All-take : (P : A → Type 0) (n : ℕ) (xs : List A) → All P xs → All P (take n xs)
  All-take P zero xs h = tt
  All-take P (suc n) [] h = tt
  All-take P (suc n) (x ∷ xs) (p, h) = (p, All-take P n xs h)

  All-reverse_aux :
      (P : A → Type 0) (xs ys : List A) → All P xs → All P ys → All P (reverse_aux xs ys)
  All-reverse_aux P [] ys h k = k
  All-reverse_aux P (x ∷ xs) ys (p, h) k = All-reverse_aux P xs (x ∷ ys) h (p, k)

  length-reverse_aux : (xs ys : List A) → length (reverse_aux xs ys) ≡ length xs + length ys
  length-reverse_aux [] ys = omega arith
  length-reverse_aux (x ∷ xs) ys = omega (arith, length-reverse_aux xs (x ∷ ys))

  reverse_aux-reverse_aux :
      (xs ys : List A) → reverse_aux (reverse_aux xs ys) [] ≡ reverse_aux ys xs
  reverse_aux-reverse_aux [] ys = refl
  reverse_aux-reverse_aux (x ∷ xs) ys = reverse_aux-reverse_aux xs (x ∷ ys)

All-trim_start :
    (P : ℕ → Type 0) (p : ℕ → Bool) (s : Text) → All P s → All P (trim_start_matches p s)
unfolding trim_start_matches
All-trim_start P p [] h = tt
All-trim_start P p (c ∷ s) (q, h) =
    All-if P (p c) (trim_start_matches p s) (c ∷ s) (λ _. All-trim_start P p s h) (q, h)

length-trim_start : (p : ℕ → Bool) (s : Text) → length (trim_start_matches p s) ≤ length s
unfolding trim_start_matches
length-trim_start p [] = omega arith
length-trim_start p (c ∷ s) = ground (arith, length-trim_start p s)

trim_start-first :
    (p : ℕ → Bool) (s : Text) (c : ℕ) (cs : Text) → trim_start_matches p s ≡ c ∷ cs → p c ≡ false
unfolding trim_start_matches
trim_start-first p [] c cs h = ground arith
trim_start-first p (d ∷ s) c cs h = ground (arith, trim_start-first p s c cs)

-- Of a label: it has from 1 to 80 characters, none of them a control or format character, and the
-- last is no whitespace.
pub record IsLabel (is_format_control : ℕ → Bool) (label : Text) : Type 0 where
  pub some_char : 1 ≤ length label
  pub bounded : length label ≤ max_label_chars
  pub printable : All (λ c. (not (is_control c) && not (is_format_control c)) ≡ true) label
  pub ended : (c : ℕ) (cs : Text) → reverse label ≡ c ∷ cs → is_whitespace c ≡ false

non_empty-some : (s l : Text) → non_empty s ≡ some l → (s ≡ l) × (1 ≤ length l)
non_empty-some [] l h = ground arith
non_empty-some (c ∷ s) l h = let e = same h in (e, subst (λ x. 1 ≤ length x) e (omega arith))
  where
    same : some (c ∷ s) ≡ some l → (c ∷ s) ≡ l
    same k = ground arith

-- Text without whitespace at its end.
trimmed-IsLabel :
    (is_format_control : ℕ → Bool) (s : Text)
    → length s ≤ max_label_chars
    → All (λ c. (not (is_control c) && not (is_format_control c)) ≡ true) s
    → 1 ≤ length (trim_end_matches is_whitespace s)
    → IsLabel is_format_control (trim_end_matches is_whitespace s)
unfolding trim_end_matches
trimmed-IsLabel is_format_control s l h k =
    let t = trim_start_matches is_whitespace (reverse s) in
    record {
      some_char = k;
      bounded = omega (
        arith,
        l,
        length-reverse_aux t [],
        length-trim_start is_whitespace (reverse s),
        length-reverse_aux s [],
      );
      printable =
          All-reverse_aux _ t []
            (All-trim_start _ is_whitespace (reverse s) (All-reverse_aux _ s [] h tt)) tt;
      ended = λ c cs e.
          trim_start-first is_whitespace (reverse s) c cs (sym (reverse_aux-reverse_aux t []) ∙ e);
    }

some-IsLabel :
    (is_format_control : ℕ → Bool) (s label : Text)
    → length s ≤ max_label_chars
    → All (λ c. (not (is_control c) && not (is_format_control c)) ≡ true) s
    → non_empty (trim_end_matches is_whitespace s) ≡ some label
    → IsLabel is_format_control label
some-IsLabel is_format_control s label l h e =
    let (same, k) = non_empty-some (trim_end_matches is_whitespace s) label e in
    subst (IsLabel is_format_control) same
      (trimmed-IsLabel is_format_control s l h (subst (λ x. 1 ≤ length x) (sym same) k))

-- A label that is presented has from 1 to 80 characters, none of which is a control or a format
-- character, and does not end in whitespace.
pub presentation_label-IsLabel :
    (is_format_control : ℕ → Bool) (value label : Text)
    → presentation_label is_format_control value ≡ some label
    → IsLabel is_format_control label
unfolding presentation_label
presentation_label-IsLabel is_format_control value label h =
    let kept =
      keep_if (λ c. not (is_control c) && not (is_format_control c))
        (spaced (words_from [] value)) in
    some-IsLabel is_format_control (take max_label_chars kept) label
      (omega (arith, length-take max_label_chars kept))
      (All-take _ max_label_chars kept (All-keep_if _ (spaced (words_from [] value)))) h
