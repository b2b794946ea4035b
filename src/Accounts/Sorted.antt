-- ===== src/Accounts/Sorted.antt =====
-- The order in which src/accounts.rs sorts.
use genkan.Prelude.{
  Bool, true, false, List, [], ◌∷◌, text_eq_self, text_eq→eq, text_leb_trans, text_trichotomy,
  text_ltb_irrefl, text_ltb_trans, ◌≡◌, refl, arith, All, All-weaken, ◌⊎◌, inl, inr, if◌then◌else◌,
  Text, text_ltb, Bool-cases,
}
use mathlib.Core.List.{Perm}
use mathlib.Core.List.Perm
use genkan.Greeter.State.{Account}
use genkan.Accounts.{account_ltb, insert_account, sort_accounts}

-- No account stands behind one that is greater.
abbrev pub IsSorted : List Account → Type 0
IsSorted [] = Unit {0}
IsSorted (x ∷ xs) = All (λ y. account_ltb y x ≡ false) xs × IsSorted xs

account_leb_trans :
    (r s t : Account) → account_ltb s r ≡ false → account_ltb t s ≡ false → account_ltb t r ≡ false
unfolding account_ltb
account_leb_trans r s t h k = ground (
  arith,
  text_leb_trans r.display_name s.display_name t.display_name,
  text_leb_trans r.username s.username t.username,
  text_eq→eq t.display_name r.display_name,
  text_trichotomy r.display_name s.display_name,
  text_trichotomy s.display_name t.display_name,
  text_eq_self r.display_name,
  text_eq_self s.display_name,
  text_eq_self t.display_name,
  text_ltb_trans r.display_name s.display_name r.display_name,
  text_ltb_trans s.display_name t.display_name s.display_name,
  text_ltb_irrefl r.display_name,
  text_ltb_irrefl s.display_name,
)

account_ltb_asym : (r s : Account) → account_ltb r s ≡ true → account_ltb s r ≡ false
unfolding account_ltb
account_ltb_asym r s h = ground (
  arith,
  text_eq→eq r.display_name s.display_name,
  text_eq→eq s.display_name r.display_name,
  text_ltb_trans r.display_name s.display_name r.display_name,
  text_ltb_trans r.username s.username r.username,
  text_ltb_irrefl r.display_name,
  text_ltb_irrefl s.display_name,
  text_ltb_irrefl r.username,
)

if_All :
    (P : Account → Type 0) (b : Bool) (xs ys : List Account)
    → All P xs
    → All P ys
    → All P (if b then xs else ys)
if_All P true xs ys h k = h
if_All P false xs ys h k = k

insert-All :
    (P : Account → Type 0) (x : Account) (xs : List Account)
    → P x
    → All P xs
    → All P (insert_account x xs)
unfolding insert_account
insert-All P x [] p h = (p, tt)
insert-All P x (y ∷ ys) p (q, h) =
    if_All P (account_ltb y x) (y ∷ insert_account x ys) (x ∷ (y ∷ ys)) (q, insert-All P x ys p h)
      (p, (q, h))

if_Perm :
    (b : Bool) (xs ys zs : List Account) → Perm xs zs → Perm ys zs → Perm (if b then xs else ys) zs
if_Perm true xs ys zs h k = h
if_Perm false xs ys zs h k = k

insert-Perm : (x : Account) (xs : List Account) → Perm (insert_account x xs) (x ∷ xs)
unfolding insert_account
insert-Perm x [] = Perm.rfl
insert-Perm x (y ∷ ys) =
    if_Perm (account_ltb y x) (y ∷ insert_account x ys) (x ∷ (y ∷ ys)) (x ∷ (y ∷ ys))
      (Perm.trans (Perm.cons y (insert-Perm x ys)) (Perm.swap x y ys)) Perm.rfl

if_IsSorted :
    (b : Bool) (xs ys : List Account)
    → (b ≡ true → IsSorted xs)
    → (b ≡ false → IsSorted ys)
    → IsSorted (if b then xs else ys)
if_IsSorted true xs ys h k = h refl
if_IsSorted false xs ys h k = k refl

insert-IsSorted : (x : Account) (xs : List Account) → IsSorted xs → IsSorted (insert_account x xs)
unfolding insert_account
insert-IsSorted x [] h = (tt, tt)
insert-IsSorted x (y ∷ ys) (below, h) =
    if_IsSorted (account_ltb y x) (y ∷ insert_account x ys) (x ∷ (y ∷ ys))
      (λ e. (
        insert-All (λ z. account_ltb z y ≡ false) x ys (account_ltb_asym y x e) below,
        insert-IsSorted x ys h,
      ))
      (λ e. ((e, All-weaken ys (λ z k. account_leb_trans x y z e k) below), (below, h)))

pub sort-IsSorted : (xs : List Account) → IsSorted (sort_accounts xs)
unfolding sort_accounts
sort-IsSorted [] = tt
sort-IsSorted (x ∷ xs) = insert-IsSorted x (sort_accounts xs) (sort-IsSorted xs)

pub sort-Perm : (xs : List Account) → Perm (sort_accounts xs) xs
unfolding sort_accounts
sort-Perm [] = Perm.rfl
sort-Perm (x ∷ xs) = Perm.trans (insert-Perm x (sort_accounts xs)) (Perm.cons x (sort-Perm xs))

-- By display name, and by user name where those are the same.
abbrev pub IsBefore : Account → Account → Type 0
IsBefore x y =
    (text_ltb x.display_name y.display_name ≡ true)
    ⊎ ((x.display_name ≡ y.display_name) × (text_ltb y.username x.username ≡ false))

abbrev pub InOrder : List Account → Type 0
InOrder [] = Unit {0}
InOrder (x ∷ xs) = All (IsBefore x) xs × InOrder xs

equal_texts : (s t : Text) → text_ltb s t ≡ false → text_ltb t s ≡ false → s ≡ t
equal_texts s t h k = elim (text_trichotomy s t) [
  | inl e ↦ ground arith
  | inr o ↦ elim o [ inl e ↦ ground arith | inr e ↦ e ]
]

ltb-IsBefore : (x y : Account) → account_ltb y x ≡ false → IsBefore x y
unfolding account_ltb
ltb-IsBefore x y h = elim (Bool-cases (text_ltb x.display_name y.display_name)) [
  | inl e ↦ inl e
  | inr e ↦
      let same = equal_texts x.display_name y.display_name e (ground arith) in
      inr (same, ground (arith, text_eq_self x.display_name, same))
]

pub IsSorted-InOrder : (xs : List Account) → IsSorted xs → InOrder xs
IsSorted-InOrder [] h = tt
IsSorted-InOrder (x ∷ xs) (h, k) =
    (All-weaken xs (λ y l. ltb-IsBefore x y l) h, IsSorted-InOrder xs k)
