-- ===== src/Examples/Outputs.antt =====
-- Choosing an output of crates/output-selection, with two external connectors and a panel.
use mathlib.Core.List.{Memᴰ}
use genkan.Prelude.{
  ℕ, Option, none, some, List, [], ◌∷◌, Text, codes, ◌≡◌, refl, text_eq, text_ltb, ap, sym, ◌∙◌,
  if◌then◌else◌,
}
use genkan.OutputSelection.{select}
use genkan.OutputSelection.Choice.{Reason, select-Reason}
use genkan.OutputSelection.Order.{SameOutputs, HasDistinctNames, select-SameOutputs}

abbrev docked : List (ℕ × Option Text)
docked = (1, some (codes "eDP-1")) ∷ (2, some (codes "DP-2")) ∷ (3, some (codes "DP-1")) ∷ []

abbrev redocked : List (ℕ × Option Text)
redocked = (3, some (codes "DP-1")) ∷ (2, some (codes "DP-2")) ∷ (1, some (codes "eDP-1")) ∷ []

default_is_least : select docked none ≡ some 3
unfolding select text_eq text_ltb
default_is_least = refl

request_wins : select docked (some (codes "DP-2")) ≡ some 2
unfolding select text_eq text_ltb
request_wins = refl

select-Reason_example : Reason docked none 3
select-Reason_example = select-Reason docked none 3 default_is_least

docked_same : SameOutputs docked redocked
docked_same = record { to = to; from = from }
  where
    to : (x : ℕ × Option Text) → Memᴰ x docked → Memᴰ x redocked
    to x (Memᴰ.head e) = Memᴰ.tail (Memᴰ.tail (Memᴰ.head e))
    to x (Memᴰ.tail (Memᴰ.head e)) = Memᴰ.tail (Memᴰ.head e)
    to x (Memᴰ.tail (Memᴰ.tail (Memᴰ.head e))) = Memᴰ.head e
    to x (Memᴰ.tail (Memᴰ.tail (Memᴰ.tail m))) = elim m [ ]

    from : (x : ℕ × Option Text) → Memᴰ x redocked → Memᴰ x docked
    from x (Memᴰ.head e) = Memᴰ.tail (Memᴰ.tail (Memᴰ.head e))
    from x (Memᴰ.tail (Memᴰ.head e)) = Memᴰ.tail (Memᴰ.head e)
    from x (Memᴰ.tail (Memᴰ.tail (Memᴰ.head e))) = Memᴰ.head e
    from x (Memᴰ.tail (Memᴰ.tail (Memᴰ.tail m))) = elim m [ ]

abbrev number_of : Option Text → ℕ
number_of none = 0
number_of (some n) =
    if text_eq n (codes "eDP-1") then 1 else if text_eq n (codes "DP-2") then 2 else 3

number_by :
    (a : ℕ) (n : Text) (x : ℕ × Option Text)
    → (a, some n) ≡ x
    → x.0 ≡ number_of x.1
    → a ≡ number_of (some n)
number_by a n x e h =
    ap (λ (p : ℕ × Option Text). p.0) e ∙ (h ∙ sym (ap (λ (p : ℕ × Option Text). number_of p.1) e))

docked_number : (a : ℕ) (n : Text) → Memᴰ (a, some n) docked → a ≡ number_of (some n)
unfolding text_eq
docked_number a n (Memᴰ.head e) = number_by a n _ e refl
docked_number a n (Memᴰ.tail (Memᴰ.head e)) = number_by a n _ e refl
docked_number a n (Memᴰ.tail (Memᴰ.tail (Memᴰ.head e))) = number_by a n _ e refl
docked_number a n (Memᴰ.tail (Memᴰ.tail (Memᴰ.tail m))) = elim m [ ]

docked_distinct : HasDistinctNames docked
docked_distinct a b n p q = docked_number a n p ∙ sym (docked_number b n q)

select-SameOutputs_example : select docked none ≡ select redocked none
select-SameOutputs_example =
    select-SameOutputs docked redocked none docked_same docked_distinct 2 (codes "DP-2")
      (Memᴰ.tail (Memᴰ.head refl))
