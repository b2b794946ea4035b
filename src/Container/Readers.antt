-- ===== src/Container/Readers.antt =====
-- What the reading functions of src/dynamic_wallpaper/container.rs ensure.
use genkan.Prelude.{
  ℕ, ◌+◌, ◌≤◌, Bool, true, false, ◌||◌, List, Text, ◌==◌, ltb, length, take, drop, ◌≢◌, ap, sym,
  ◌∙◌, subst, ◌≡◌, refl, arith, if◌then◌else◌,
}
use genkan.Container.{
  Error, Result, ok, err, out_of_fuel, ◌>>=◌, Header, overflow, usize, checked_add, read, advance,
  read_number, read_u8, read_u16, read_u32, read_uint, read_cstring, box_lengths, header_of,
  read_header, big_endian,
}

-- There is a value that satisfies the predicate, or an error; the fuel is enough.
pub data Ensures {A : Type 0} (P : A → Type 0) : Result A → Type 0 where
  value : (a : A) → P a → Ensures P (ok a)
  error : (e : Error) → Ensures P (err e)

abbrev pub Any : {A : Type 0} → A → Type 0
Any a = Unit {0}

pub bind-Ensures :
    {A B : Type 0} (P : A → Type 0) (Q : B → Type 0) (r : Result A) (k : A → Result B)
    → Ensures P r
    → ((a : A) → P a → Ensures Q (k a))
    → Ensures Q (r >>= k)
unfolding ◌>>=◌
bind-Ensures P Q r k (value a h) f = f a h
bind-Ensures P Q r k (error e) f = error e

-- The same with the value known.
pub known-Ensures :
    {A B : Type 0} (P : A → Type 0) (Q : B → Type 0) (r : Result A) (k : A → Result B)
    → Ensures P r
    → ((a : A) → r ≡ ok a → P a → Ensures Q (k a))
    → Ensures Q (r >>= k)
unfolding ◌>>=◌
known-Ensures P Q r k (value a h) f = f a refl h
known-Ensures P Q r k (error e) f = error e

pub map-Ensures :
    {A : Type 0} (P Q : A → Type 0) (r : Result A)
    → ((a : A) → P a → Q a)
    → Ensures P r
    → Ensures Q r
map-Ensures P Q r f (value a h) = value a (f a h)
map-Ensures P Q r f (error e) = error e

abbrev is_done : {A : Type 0} → Result A → Bool
is_done out_of_fuel = false
is_done _ = true

done : {A : Type 0} (P : A → Type 0) (r : Result A) → Ensures P r → is_done r ≡ true
done P r (value a h) = refl
done P r (error e) = refl

pub ends : {A : Type 0} (P : A → Type 0) (r : Result A) → Ensures P r → r ≢ out_of_fuel
ends P r h e = let k = sym (done P r h) ∙ ap is_done e in ground arith

abbrev IsResult : {A : Type 0} → (A → Type 0) → Result A → Type 0
IsResult P (ok a) = P a
IsResult P _ = Unit {0}

result : {A : Type 0} (P : A → Type 0) (r : Result A) → Ensures P r → IsResult P r
result P r (value a h) = h
result P r (error e) = tt

pub ensured : {A : Type 0} (P : A → Type 0) (r : Result A) (a : A) → Ensures P r → r ≡ ok a → P a
ensured P r a h e = subst (IsResult P) e (result P r h)

pub if-Ensures :
    {A : Type 0} (P : A → Type 0) (b : Bool) (x y : Result A)
    → (b ≡ true → Ensures P x)
    → (b ≡ false → Ensures P y)
    → Ensures P (if b then x else y)
if-Ensures P true x y h k = h refl
if-Ensures P false x y h k = k refl

pub checked_add-Ensures :
    (bound a b : ℕ) (e : Error) → Ensures (λ n. n ≡ a + b) (checked_add bound a b e)
unfolding checked_add
checked_add-Ensures bound a b e =
    if-Ensures _ (ltb (a + b) bound) _ _ (λ _. value (a + b) refl) (λ _. error e)

-- A child lies within its parent, and its body behind a header of 8 bytes at least.
pub record IsChild (offset end : ℕ) (child : Header) : Type 0 where
  pub after : offset + 8 ≤ child.body_start
  pub ordered : child.body_start ≤ child.body_end
  pub inside : child.body_end ≤ end
  pub joined : child.next ≡ child.body_end

module _ (bytes : List ℕ) where
  pub read-Ensures : (offset count end : ℕ) → Ensures Any (read bytes offset count end)
  unfolding read
  read-Ensures offset count end =
      bind-Ensures _ Any _ _ (checked_add-Ensures usize offset count overflow) (λ stop h.
        if-Ensures Any (ltb end stop || ltb (length bytes) stop) _ _ (λ _. error _)
          (λ _. value _ tt))

  pub advance-Ensures : (offset count end : ℕ) → Ensures Any (advance bytes offset count end)
  unfolding advance
  advance-Ensures offset count end =
      bind-Ensures _ Any _ _ (checked_add-Ensures usize offset count overflow)
        (λ stop h. if-Ensures Any (ltb end stop) _ _ (λ _. error _) (λ _. value _ tt))

  pub number-Ensures : (width offset end : ℕ) → Ensures Any (read_number bytes width offset end)
  unfolding read_number
  number-Ensures width offset end =
      bind-Ensures Any Any _ _ (read-Ensures offset width end) (λ bs h. value _ tt)

  pub u8-Ensures : (offset end : ℕ) → Ensures Any (read_u8 bytes offset end)
  unfolding read_u8
  u8-Ensures offset end = number-Ensures 1 offset end

  pub u16-Ensures : (offset end : ℕ) → Ensures Any (read_u16 bytes offset end)
  unfolding read_u16
  u16-Ensures offset end = number-Ensures 2 offset end

  pub u32-Ensures : (offset end : ℕ) → Ensures Any (read_u32 bytes offset end)
  unfolding read_u32
  u32-Ensures offset end = number-Ensures 4 offset end

  pub uint-Ensures : (offset width end : ℕ) → Ensures Any (read_uint bytes offset width end)
  unfolding read_uint
  uint-Ensures offset width end =
      if-Ensures Any (width == 0) _ _ (λ _. value _ tt)
        (λ _.
          if-Ensures Any (width == 4) _ _ (λ _. u32-Ensures offset end)
            (λ _.
              if-Ensures Any (width == 8) _ _
                (λ _. bind-Ensures Any Any _ _ (u32-Ensures offset end) (λ high h.
                  bind-Ensures Any Any _ _ (u32-Ensures (offset + 4) end) (λ low k. value _ tt)))
                (λ _. error _)))

  pub cstring-Ensures : (offset end : ℕ) → Ensures Any (read_cstring bytes offset end)
  unfolding read_cstring
  cstring-Ensures offset end =
      if-Ensures Any (ltb end offset || ltb (length bytes) end) _ _ (λ _. error _) (λ _. value _ tt)

  lengths-Ensures :
      (size offset bound : ℕ)
      → Ensures (λ lengths. 8 ≤ lengths.1) (box_lengths bytes size offset bound)
  unfolding box_lengths
  lengths-Ensures size offset bound =
      if-Ensures _ (size == 0) _ _ (λ _. value _ (omega arith))
        (λ _.
          if-Ensures _ (size == 1) _ _
            (λ _. bind-Ensures _ _ _ _ (checked_add-Ensures usize offset 8 overflow) (λ start h.
              bind-Ensures Any _ _ _ (number-Ensures 8 start bound)
                (λ large k. value _ (omega arith))))
            (λ _. value _ (omega arith)))

  header-Ensures :
      (kind : Text) (offset bound : ℕ) (lengths : ℕ × ℕ)
      → 8 ≤ lengths.1
      → Ensures (IsChild offset bound) (header_of bytes kind offset bound lengths)
  unfolding header_of
  header-Ensures kind offset bound (box_length, short) h =
      if-Ensures _ (ltb box_length _) _ _ (λ _. error _)
        (λ e. bind-Ensures _ _ _ _ (checked_add-Ensures usize offset _ overflow) (λ body_start k.
          bind-Ensures _ _ _ _ (checked_add-Ensures usize offset box_length overflow) (λ body_end l.
            if-Ensures _ (ltb bound body_end) _ _ (λ _. error _)
              (λ m. value _ (record {
                after = ground arith;
                ordered = ground arith;
                inside = ground arith;
                joined = refl;
              })))))

  pub read_header-Ensures :
      (offset bound : ℕ) → Ensures (IsChild offset bound) (read_header bytes offset bound)
  unfolding read_header
  read_header-Ensures offset bound =
      bind-Ensures Any _ _ _ (read-Ensures offset 8 bound) (λ header h.
        bind-Ensures _ _ _ _ (lengths-Ensures (big_endian (take 4 header) 0) offset bound)
          (λ lengths k. header-Ensures (drop 4 header) offset bound lengths k))
