-- ===== src/Accounts/Preferred.antt =====
-- Which account src/accounts.rs proposes.
use genkan.Prelude.{
  ℕ, ◌≤◌, ◌<◌, Bool, true, false, Option, none, some, List, [], ◌∷◌, ◌++◌, ◌≡◌, refl, ap, sym, ◌∙◌,
  arith, any, keep_if, is_none, subst, All, All-append, All-weaken, ==→eq, ==-self, if◌then◌else◌,
  inl, inr, Option-cases,
}
use genkan.Greeter.State.{Account}
use genkan.Accounts.{preferred_account, later, latest_account, latest_login, login_eq, sole}

-- The account logged in before the time given.
abbrev IsBefore : ℕ → Account → Type 0
IsBefore t a = (u : ℕ) × (a.last_login ≡ some u) × (u < t)

-- The account is the only one, or its login is known and later than every other one's, all of which
-- are known.
pub data IsPreferred (a : Account) (xs : List Account) : Type 0 where
  only : xs ≡ a ∷ [] → IsPreferred a xs
  latest :
      (t : ℕ)
      → a.last_login ≡ some t
      → (us vs : List Account) → xs ≡ us ++ (a ∷ vs)
      → All (IsBefore t) us
      → All (IsBefore t) vs
      → IsPreferred a xs

-- The login is known, and not after the time given.
abbrev IsUpTo : ℕ → Account → Type 0
IsUpTo t a = (u : ℕ) × (a.last_login ≡ some u) × (u ≤ t)

later-known :
    (k r : Option ℕ) (t : ℕ)
    → is_none k ≡ false
    → later k r ≡ some t
    → (u : ℕ) × (k ≡ some u) × (u ≤ t)
later-known none r t h e = ground arith
later-known (some u) none t h e = (u, refl, ground arith)
later-known (some u) (some v) t h e = (u, refl, ground arith)

later-rest : (k : Option ℕ) (v t : ℕ) → later k (some v) ≡ some t → v ≤ t
later-rest none v t e = ground arith
later-rest (some u) v t e = ground arith

none_known :
    (xs : List Account) (t : ℕ)
    → any (λ a. is_none a.last_login) xs ≡ false
    → latest_login xs ≡ none
    → All (IsUpTo t) xs
unfolding latest_login
none_known [] t h e = tt
none_known (x ∷ xs) t h e = absurd (known x.last_login (latest_login xs) (ground arith) e)
  where
    known : (k r : Option ℕ) → is_none k ≡ false → later k r ≡ none → ⊥
    known none r h e = ground arith
    known (some u) none h e = ground arith
    known (some u) (some v) h e = ground arith

-- With every login known, each is at most the latest.
latest_login-IsUpTo :
    (xs : List Account) (t : ℕ)
    → any (λ a. is_none a.last_login) xs ≡ false
    → latest_login xs ≡ some t
    → All (IsUpTo t) xs
unfolding latest_login
latest_login-IsUpTo [] t h e = tt
latest_login-IsUpTo (x ∷ xs) t h e = (
  later-known x.last_login (latest_login xs) t (ground arith) e,
  elim (Option-cases (latest_login xs)) [
    | inl k ↦ none_known xs t (ground arith) k
    | inr (v, k) ↦
        All-weaken xs
          (λ a q. (
            q.0,
            q.1,
            ground (arith, later-rest x.last_login v t (ap (later x.last_login) (sym k) ∙ e), q.2),
          ))
          (latest_login-IsUpTo xs v (ground arith) k)
  ],
)

-- An account kept alone splits the list.
keep_if-none {ℓ} :
    {A : Type ℓ} (p : A → Bool) (xs : List A) → keep_if p xs ≡ [] → All (λ a. p a ≡ false) xs
keep_if-none p [] h = tt
keep_if-none p (x ∷ xs) h = (ground arith, keep_if-none p xs (ground arith))

sole-cons {ℓ} :
    {A : Type ℓ} (x : A) (xs : List A) (a : A) → sole (x ∷ xs) ≡ some a → (xs ≡ []) × (x ≡ a)
sole-cons x [] a h = (refl, ground arith)
sole-cons x (y ∷ ys) a h = ground arith

-- The only element of those kept.
abbrev IsSole : (Account → Bool) → List Account → Account → Type 0
IsSole p xs a =
    (us : List Account) × (vs : List Account) × (xs ≡ us ++ (a ∷ vs))
    × (p a ≡ true)
    × All (λ b. p b ≡ false) us
    × All (λ b. p b ≡ false) vs

split_first :
    (p : Account → Bool) (b : Bool) (x : Account) (xs : List Account) (a : Account)
    → p x ≡ b
    → sole (if b then x ∷ keep_if p xs else keep_if p xs) ≡ some a
    → (sole (keep_if p xs) ≡ some a → IsSole p xs a)
    → IsSole p (x ∷ xs) a
split_first p true x xs a e h f =
    let (none_left, same) = sole-cons x (keep_if p xs) a h in
    ([], xs, ap (λ y. y ∷ xs) same, ap p (sym same) ∙ e, tt, keep_if-none p xs none_left)
split_first p false x xs a e h f =
    let (us, vs, k, q, before, after) = f h in
    (x ∷ us, vs, ap (λ ys. x ∷ ys) k, q, (e, before), after)

sole-IsSole :
    (p : Account → Bool) (xs : List Account) (a : Account)
    → sole (keep_if p xs) ≡ some a
    → IsSole p xs a
sole-IsSole p [] a h = ground arith
sole-IsSole p (x ∷ xs) a h = split_first p (p x) x xs a refl h (sole-IsSole p xs a)

login_eq-some : (t : ℕ) (o : Option ℕ) → login_eq t o ≡ true → o ≡ some t
login_eq-some t none h = ground arith
login_eq-some t (some u) h = ap some (==→eq u t h)

login_eq-before : (t u : ℕ) (o : Option ℕ) → login_eq t o ≡ false → o ≡ some u → u ≤ t → u < t
login_eq-before t u none h e k = ground arith
login_eq-before t u (some v) h e k = ground (arith, ==-self t)

before :
    (t : ℕ) (xs : List Account)
    → All (IsUpTo t) xs
    → All (λ b. login_eq t b.last_login ≡ false) xs
    → All (IsBefore t) xs
before t [] h k = tt
before t (x ∷ xs) ((u, e, l), h) (n, k) =
    ((u, e, login_eq-before t u x.last_login n e l), before t xs h k)

latest-IsPreferred :
    (o : Option ℕ) (xs : List Account) (a : Account)
    → ((t : ℕ) → o ≡ some t → All (IsUpTo t) xs)
    → latest_account o xs ≡ some a
    → IsPreferred a xs
latest-IsPreferred none xs a f h = ground arith
latest-IsPreferred (some t) xs a f h =
    let (us, vs, k, q, before_it, after_it) = sole-IsSole (λ b. login_eq t b.last_login) xs a h in
    let (p, r) = All-append (IsUpTo t) us (a ∷ vs) (subst (All (IsUpTo t)) k (f t refl)) in
    latest t (login_eq-some t a.last_login q) us vs k (before t us p before_it)
      (before t vs r.1 after_it)

several-IsPreferred :
    (b : Bool) (xs : List Account) (a : Account)
    → any (λ x. is_none x.last_login) xs ≡ b
    → (if◌then◌else◌ {A = Option Account} b none (latest_account (latest_login xs) xs)) ≡ some a
    → IsPreferred a xs
several-IsPreferred true xs a e h = ground arith
several-IsPreferred false xs a e h =
    latest-IsPreferred (latest_login xs) xs a (λ t k. latest_login-IsUpTo xs t e k) h

-- An account that is proposed is the only one there is, or its login is known and later than that
-- of every other one, all of which are known.
pub preferred_account-IsPreferred :
    (xs : List Account) (a : Account) → preferred_account xs ≡ some a → IsPreferred a xs
unfolding preferred_account
preferred_account-IsPreferred [] a h = ground arith
preferred_account-IsPreferred (x ∷ []) a h = only (ap (λ y. y ∷ []) (ground arith))
preferred_account-IsPreferred (x ∷ y ∷ ys) a h = several-IsPreferred _ (x ∷ y ∷ ys) a refl h
