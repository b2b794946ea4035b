-- ===== src/Accounts.antt =====
-- src/accounts.rs: which accounts the greeter offers, their labels, and the account that it
-- proposes. The Unicode category `Format` comes from a crate and is a parameter; a login time is a
-- number of seconds, a positive one in an account.

pub mod Preferred
pub mod Sorted
pub mod Collected
pub mod Labels
use genkan.Prelude.{
  ◌⊎◌, inl, inr, ℕ, zero, suc, ◌+◌, Bool, true, false, ◌&&◌, ◌||◌, not, Option, none, some, List,
  [], ◌∷◌, ◌++◌, Text, text_eq, text_ltb, ltb, leb, ◌==◌, length, take, any, keep_if, is_none,
  is_some, or_else, max, if◌then◌else◌,
}
use genkan.Conversation.{is_whitespace, trim_end_matches}
use genkan.Greeter.State.{Account}

abbrev pub max_label_chars : ℕ
max_label_chars = 80

-- `char::is_control`.
abbrev pub is_control : ℕ → Bool
is_control c = leb c 31 || (leb 127 c && leb c 159)

-- The words of `split_whitespace`, with the characters of the word begun.
unfoldable pub words_from : Text → Text → List Text
words_from [] [] = []
words_from (d ∷ ds) [] = (d ∷ ds) ∷ []
words_from [] (c ∷ cs) = words_from (if is_whitespace c then [] else c ∷ []) cs
words_from (d ∷ ds) (c ∷ cs) =
    let ended = (d ∷ ds) ∷ words_from [] cs in
    let longer = words_from (d ∷ (ds ++ (c ∷ []))) cs in if is_whitespace c then ended else longer

-- Each word with a space behind it.
unfoldable pub spaced : List Text → Text
spaced [] = []
spaced (w ∷ ws) = w ++ (32 ∷ spaced ws)

abbrev pub non_empty : Text → Option Text
non_empty [] = none
non_empty (c ∷ cs) = some (c ∷ cs)

-- `i64`, of the native numbers.
pub data ℤ : Type 0 where
  pos negsuc : ℕ → ℤ

-- A user as AccountsService describes it.
pub record Properties : Type 0 where
  pub username : Text
  pub real_name : Text
  pub system_account : Bool
  pub locked : Bool
  pub last_login : Option ℤ

-- `accounts.len() == 1`.
abbrev pub is_single : List Account → Bool
is_single (a ∷ []) = true
is_single _ = false

abbrev pub first {ℓ} : {A : Type ℓ} → List A → Option A
first [] = none
first (x ∷ xs) = some x

abbrev pub later : Option ℕ → Option ℕ → Option ℕ
later none rest = rest
later (some t) none = some t
later (some t) (some u) = some (max t u)

-- `filter_map(|account| account.last_login).max()`.
unfoldable pub latest_login : List Account → Option ℕ
latest_login [] = none
latest_login (a ∷ as') = later a.last_login (latest_login as')

abbrev pub login_eq : ℕ → Option ℕ → Bool
login_eq t none = false
login_eq t (some u) = u == t

-- The only element.
abbrev pub sole {ℓ} : {A : Type ℓ} → List A → Option A
sole (x ∷ []) = some x
sole _ = none

-- The only account logged in at the time given.
abbrev pub latest_account : Option ℕ → List Account → Option Account
latest_account none accounts = none
latest_account (some latest) accounts = sole (keep_if (λ a. login_eq latest a.last_login) accounts)

unfoldable pub preferred_account : List Account → Option Account
unfolding latest_login
preferred_account accounts =
    if is_single accounts
    then first accounts
    else if any (λ a. is_none a.last_login) accounts
    then none
    else latest_account (latest_login accounts) accounts

-- The order of `sort_by`: display names, then user names.
unfoldable pub account_ltb : Account → Account → Bool
account_ltb l r =
    text_ltb l.display_name r.display_name
    || (text_eq l.display_name r.display_name && text_ltb l.username r.username)

-- Into a sorted list, in front of those that are not smaller.
unfoldable pub insert_account : Account → List Account → List Account
insert_account x [] = x ∷ []
insert_account x (y ∷ ys) =
    let later_on = y ∷ insert_account x ys in if account_ltb y x then later_on else x ∷ (y ∷ ys)

-- `sort_by`, which is stable.
unfoldable pub sort_accounts : List Account → List Account
unfolding insert_account
sort_accounts [] = []
sort_accounts (x ∷ xs) = insert_account x (sort_accounts xs)

abbrev pub first_error {ℓ} : {E : Type ℓ} → List (E ⊎ Properties) → Option E
first_error [] = none
first_error (inl e ∷ rs) = some e
first_error (inr p ∷ rs) = first_error rs

-- An error counts only if no account is there.
unfoldable pub or_error {ℓ} : {E : Type ℓ} → Option E → List Account → E ⊎ List Account
or_error (some e) [] = inl e
or_error none accounts = inr (sort_accounts accounts)
or_error (some e) (a ∷ as') = inr (sort_accounts (a ∷ as'))

module _ (is_format_control : ℕ → Bool) where
  unfoldable pub valid_username : Text → Bool
  valid_username username =
      not (text_eq username [])
      && (leb (length username) 256
          && not (any (λ c. is_control c || (is_whitespace c || is_format_control c)) username))

  unfoldable pub presentation_label : Text → Option Text
  unfolding words_from spaced
  presentation_label value = non_empty (
      trim_end_matches is_whitespace (
        take max_label_chars (
          keep_if (λ c. not (is_control c) && not (is_format_control c))
            (spaced (words_from [] value)))))

  abbrev pub or_username : Text → Option Text → Text
  or_username username none = username
  or_username username (some label) = label

  -- `Account::override_account`.
  unfoldable pub override_account : Text → Option Text → Account
  override_account username display_name = record {
    display_name = or_username username (presentation_label (or_username username display_name));
    username = username;
    last_login = none;
  }

  -- `filter(|time| *time > 0)`.
  abbrev pub positive : Option ℤ → Option ℕ
  positive none = none
  positive (some (pos zero)) = none
  positive (some (pos (suc n))) = some (suc n)
  positive (some (negsuc n)) = none

  -- `Account::from_properties`.
  unfoldable pub from_properties : Properties → Option Account
  from_properties p =
      if p.system_account || (p.locked || not (valid_username p.username))
      then none
      else some (record {
        username = p.username;
        display_name =
            if text_eq p.real_name []
            then p.username
            else or_username p.username (presentation_label p.real_name);
        last_login = positive p.last_login;
      })

  -- The accounts of the users that could be read.
  unfoldable pub usable {ℓ} : {E : Type ℓ} → List (E ⊎ Properties) → List Account
  usable [] = []
  usable (inl e ∷ rs) = usable rs
  usable (inr p ∷ rs) = elim (from_properties p) [ none ↦ usable rs | some a ↦ a ∷ usable rs ]

  -- `collect_accounts`.
  unfoldable pub collect_accounts {ℓ} : {E : Type ℓ} → List (E ⊎ Properties) → E ⊎ List Account
  unfolding or_error
  collect_accounts results = or_error (first_error results) (usable results)
