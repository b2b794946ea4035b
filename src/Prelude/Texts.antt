-- ===== src/Prelude/Texts.antt =====
-- Text as the list of its code points. Rust orders strings by their UTF-8 bytes, which is the
-- order of the code points.
use Prim.Native.Char.{code}
use Prim.Native.String.{String}
use Prim.Native.Nat.{ℕ}
use mathlib.Core.Path.{◌≡◌, refl}
use mathlib.Core.Logic.{◌⊎◌, inl, inr}
use mathlib.Core.Bool.{Bool, true, false, ◌&&◌, ◌||◌}
use mathlib.Core.List.{List, [], ◌∷◌}
use native.Mathlib.Omega.{arith}
use genkan.Prelude.Tests.{◌==◌, ltb}

abbrev pub Text : Type 0
Text = List ℕ

abbrev pub codes : String → Text
codes String.[] = []
codes (String.◌∷◌ c s) = code c ∷ codes s

unfoldable pub text_eq : Text → Text → Bool
text_eq [] [] = true
text_eq [] (b ∷ bs) = false
text_eq (a ∷ as') [] = false
text_eq (a ∷ as') (b ∷ bs) = a == b && text_eq as' bs

-- `str::lt`, lexicographic.
unfoldable pub text_ltb : Text → Text → Bool
text_ltb [] [] = false
text_ltb [] (b ∷ bs) = true
text_ltb (a ∷ as') [] = false
text_ltb (a ∷ as') (b ∷ bs) = ltb a b || (a == b && text_ltb as' bs)

pub text_eq_self : (s : Text) → text_eq s s ≡ true
unfolding text_eq
text_eq_self [] = refl
text_eq_self (a ∷ s) = ground (arith, text_eq_self s)

pub text_eq→eq : (s t : Text) → text_eq s t ≡ true → s ≡ t
unfolding text_eq
text_eq→eq [] [] h = refl
text_eq→eq [] (b ∷ t) h = absurd (ground arith)
text_eq→eq (a ∷ s) [] h = absurd (ground arith)
text_eq→eq (a ∷ s) (b ∷ t) h = ground (arith, text_eq→eq s t)

pub text_ltb_trans :
    (r s t : Text) → text_ltb r s ≡ true → text_ltb s t ≡ true → text_ltb r t ≡ true
unfolding text_ltb
text_ltb_trans [] [] t h k = absurd (ground arith)
text_ltb_trans [] (b ∷ s) [] h k = absurd (ground arith)
text_ltb_trans [] (b ∷ s) (c ∷ t) h k = refl
text_ltb_trans (a ∷ r) [] t h k = absurd (ground arith)
text_ltb_trans (a ∷ r) (b ∷ s) [] h k = absurd (ground arith)
text_ltb_trans (a ∷ r) (b ∷ s) (c ∷ t) h k = ground (arith, text_ltb_trans r s t)

pub text_ltb_irrefl : (s : Text) → text_ltb s s ≡ false
unfolding text_ltb
text_ltb_irrefl [] = refl
text_ltb_irrefl (a ∷ s) = ground (arith, text_ltb_irrefl s)

-- Of two texts one is smaller, or they are equal.
pub text_trichotomy : (s t : Text) → (text_ltb s t ≡ true) ⊎ ((text_ltb t s ≡ true) ⊎ (s ≡ t))
unfolding text_ltb
text_trichotomy [] [] = inr (inr refl)
text_trichotomy [] (b ∷ t) = inl refl
text_trichotomy (a ∷ s) [] = inr (inl refl)
text_trichotomy (a ∷ s) (b ∷ t) = ground (arith, text_trichotomy s t)

-- A set `minimum ≤ s` of names: `s` is not below `minimum`.
pub text_leb_trans :
    (r s t : Text) → text_ltb s r ≡ false → text_ltb t s ≡ false → text_ltb t r ≡ false
text_leb_trans r s t h k = ground (
  arith,
  text_trichotomy r s,
  text_trichotomy s t,
  text_ltb_trans t r s,
  text_ltb_trans r s t,
  text_ltb_trans t s r,
  text_ltb_irrefl r,
  text_ltb_trans t r t,
  text_ltb_trans r t r,
)
