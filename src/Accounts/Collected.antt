-- ===== src/Accounts/Collected.antt =====
-- Which accounts src/accounts.rs collects, and when it gives an error.
use genkan.Prelude.{
  ℕ, Bool, true, false, Option, none, some, List, [], ◌∷◌, ◌≡◌, refl, arith, All, ◌⊎◌, inl, inr,
  if◌then◌else◌, zero, suc, ◌++◌, Text, ◌||◌, not, text_eq, ap,
}
use mathlib.Core.List.{Perm}
use genkan.Greeter.State.{Account}
use genkan.Accounts.{
  Properties, sort_accounts, first_error, or_error, usable, ℤ, pos, negsuc, positive, or_username,
  valid_username, presentation_label, from_properties, collect_accounts,
}
use genkan.Accounts.Sorted.{InOrder, sort-IsSorted, sort-Perm, IsSorted-InOrder}

module _ (is_format_control : ℕ → Bool) where
  -- A user who is offered, or not.
  abbrev pub IsOffered : Properties → Type 0
  IsOffered p =
      (p.system_account ≡ false)
      × (p.locked ≡ false)
      × (valid_username is_format_control p.username ≡ true)

  abbrev pub IsLeftOut : Properties → Type 0
  IsLeftOut p =
      (p.system_account ≡ true)
      ⊎ ((p.locked ≡ true) ⊎ (valid_username is_format_control p.username ≡ false))

  -- The account of a user: under the real name if that leaves a label, and with the login time if
  -- it is positive.
  pub record IsAccountOf (p : Properties) (a : Account) : Type 0 where
    pub username : a.username ≡ p.username
    pub display_name :
        (a.display_name ≡ p.username)
        ⊎ (presentation_label is_format_control p.real_name ≡ some a.display_name)
    pub last_login :
        (a.last_login ≡ none)
        ⊎ ((t : ℕ) × (a.last_login ≡ some (suc t)) × (p.last_login ≡ some (pos (suc t))))

  -- The accounts of the users who are offered, one each and no other.
  pub data Selects {E : Type 0} : List (E ⊎ Properties) → List Account → Type 0 where
    nobody : Selects [] []
    unread :
        (e : E) (rs : List (E ⊎ Properties)) (xs : List Account)
        → Selects rs xs
        → Selects (inl e ∷ rs) xs
    left_out :
        (p : Properties) (rs : List (E ⊎ Properties)) (xs : List Account)
        → IsLeftOut p
        → Selects rs xs
        → Selects (inr p ∷ rs) xs
    offered :
        (p : Properties) (a : Account) (rs : List (E ⊎ Properties)) (xs : List Account)
        → IsOffered p
        → IsAccountOf p a
        → Selects rs xs
        → Selects (inr p ∷ rs) (a ∷ xs)

  abbrev pub IsRead : {E : Type 0} → E ⊎ Properties → Type 0
  IsRead (inl e) = ⊥
  IsRead (inr p) = Unit {0}

  -- All accounts in order, with some account there unless every user could be read; or the first
  -- error, with no account there.
  pub data IsCollected {E : Type 0} (rs : List (E ⊎ Properties)) : E ⊎ List Account → Type 0 where
    collected :
        (xs ys : List Account)
        → Selects rs xs
        → Perm ys xs
        → InOrder ys
        → (All IsRead rs) ⊎ ((a : Account) × (as' : List Account) × (xs ≡ a ∷ as'))
        → IsCollected rs (inr ys)
    refused :
        (before : List (E ⊎ Properties)) (e : E) (after : List (E ⊎ Properties))
        → rs ≡ before ++ (inl e ∷ after)
        → All IsRead before
        → Selects rs []
        → IsCollected rs (inl e)

  label-cases :
      (username : Text) (o : Option Text)
      → (or_username is_format_control username o ≡ username)
        ⊎ (o ≡ some (or_username is_format_control username o))
  label-cases username none = inl refl
  label-cases username (some label) = inr refl

  display-cases :
      (b : Bool) (username : Text) (o : Option Text)
      → ((if b then username else or_username is_format_control username o) ≡ username)
        ⊎ (o ≡ some (if b then username else or_username is_format_control username o))
  display-cases true username o = inl refl
  display-cases false username o = label-cases username o

  login-cases :
      (o : Option ℤ)
      → (positive is_format_control o ≡ none)
        ⊎ ((t : ℕ) × (positive is_format_control o ≡ some (suc t)) × (o ≡ some (pos (suc t))))
  login-cases none = inl refl
  login-cases (some (pos zero)) = inl refl
  login-cases (some (pos (suc t))) = inr (t, refl, refl)
  login-cases (some (negsuc t)) = inl refl

  abbrev is_left_out : Properties → Bool
  is_left_out p =
      p.system_account || (p.locked || not (valid_username is_format_control p.username))

  left-IsLeftOut : (p : Properties) → is_left_out p ≡ true → IsLeftOut p
  left-IsLeftOut p h = ground arith

  left-IsOffered : (p : Properties) → is_left_out p ≡ false → IsOffered p
  left-IsOffered p h = (ground arith, ground arith, ground arith)

  abbrev Cases : Properties → Option Account → Type 0
  Cases p o =
      ((o ≡ none) × IsLeftOut p) ⊎ ((a : Account) × (o ≡ some a) × IsOffered p × IsAccountOf p a)

  if_Cases :
      (b : Bool) (p : Properties) (a : Account)
      → (b ≡ true → IsLeftOut p)
      → (b ≡ false → IsOffered p)
      → IsAccountOf p a
      → Cases p (if b then none else some a)
  if_Cases true p a h k l = inl (refl, h refl)
  if_Cases false p a h k l = inr (a, refl, k refl, l)

  properties-Cases : (p : Properties) → Cases p (from_properties is_format_control p)
  unfolding from_properties
  properties-Cases p = if_Cases (is_left_out p) p _ (left-IsLeftOut p) (left-IsOffered p) (record {
    username = refl;
    display_name =
        display-cases (text_eq p.real_name []) p.username
          (presentation_label is_format_control p.real_name);
    last_login = login-cases p.last_login;
  })

  usable-Selects :
      {E : Type 0} (rs : List (E ⊎ Properties)) → Selects rs (usable is_format_control rs)
  unfolding usable
  usable-Selects [] = nobody
  usable-Selects (inl e ∷ rs) = unread e rs _ (usable-Selects rs)
  usable-Selects (inr p ∷ rs) = elim (properties-Cases p) [
    | inl (e, h) ↦ rw (e, usable) (left_out p rs _ h (usable-Selects rs))
    | inr (a, e, h, k) ↦ rw (e, usable) (offered p a rs _ h k (usable-Selects rs))
  ]

  -- Where the first error is, if there is one.
  FirstError : {E : Type 0} → List (E ⊎ Properties) → Option E → Type 0
  FirstError rs none = All IsRead rs
  FirstError {E} rs (some e) =
      (before : List (E ⊎ Properties)) × (after : List (E ⊎ Properties)) × (rs
        ≡ before ++ (inl e ∷ after))
      × All IsRead before

  later-FirstError :
      {E : Type 0} (p : Properties) (rs : List (E ⊎ Properties)) (o : Option E)
      → FirstError rs o
      → FirstError (inr p ∷ rs) o
  unfolding FirstError
  later-FirstError p rs none h = (tt, h)
  later-FirstError p rs (some e) (before, after, s, h) =
      (inr p ∷ before, after, ap (λ x. inr p ∷ x) s, (tt, h))

  first_error-FirstError :
      {E : Type 0} (rs : List (E ⊎ Properties)) → FirstError rs (first_error rs)
  unfolding FirstError
  first_error-FirstError [] = tt
  first_error-FirstError (inl e ∷ rs) = ([], rs, refl, tt)
  first_error-FirstError (inr p ∷ rs) =
      later-FirstError p rs (first_error rs) (first_error-FirstError rs)

  or_error-IsCollected :
      {E : Type 0} (rs : List (E ⊎ Properties)) (o : Option E) (xs : List Account)
      → FirstError rs o
      → Selects rs xs
      → IsCollected rs (or_error o xs)
  unfolding or_error FirstError
  or_error-IsCollected rs (some e) [] (before, after, s, h) k = refused before e after s h k
  or_error-IsCollected rs none xs h k =
      collected xs (sort_accounts xs) k (sort-Perm xs) (IsSorted-InOrder _ (sort-IsSorted xs))
        (inl h)
  or_error-IsCollected rs (some e) (x ∷ xs) h k =
      collected (x ∷ xs) (sort_accounts (x ∷ xs)) k (sort-Perm (x ∷ xs))
        (IsSorted-InOrder _ (sort-IsSorted (x ∷ xs))) (inr (x, xs, refl))

  -- The accounts collected are those of the users that could be read and that are neither system
  -- accounts nor locked and have a valid name, each with that user's name, ordered by display name
  -- and then by user name. If there is no such user and some user could not be read, the result is
  -- the first error instead.
  pub collect_accounts-IsCollected :
      {E : Type 0} (rs : List (E ⊎ Properties))
      → IsCollected rs (collect_accounts is_format_control rs)
  unfolding collect_accounts
  collect_accounts-IsCollected rs =
      or_error-IsCollected rs (first_error rs) (usable is_format_control rs)
        (first_error-FirstError rs) (usable-Selects rs)
