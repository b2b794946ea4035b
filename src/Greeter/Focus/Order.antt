-- ===== src/Greeter/Focus/Order.antt =====
-- Where the keyboard moves the focus in src/app/focus.rs.
use genkan.Prelude.{
  ℕ, zero, suc, ◌+◌, ◌-◌, ◌<◌, ◌%◌, Bool, true, false, Option, none, some, List, [], ◌∷◌, length,
  get_elem?, position, position_from, take, ltb, any, ◌≡◌, refl, sym, subst, arith, ◌⊎◌, inl, inr,
  Bool-cases, Option-cases,
}
use native.Mathlib.Nat.{mod-lt, mod-eq_of_lt, mod_self, add-mod_right}
use genkan.Greeter.State.{App, Step, Target, close_session_menu}
use genkan.Greeter.Focus.{
  Delta, forward, backward, focus_order, target_eq, set_focus, shifted, end_for, current_index,
  next_index, move_in, move_focus,
}

get_elem?-some {ℓ} :
    {A : Type ℓ} (xs : List A) (i : ℕ) → i < length xs → (x : A) × (get_elem? xs i ≡ some x)
get_elem?-some [] i h = absurd (omega (arith, h))
get_elem?-some (x ∷ xs) zero h = (x, refl)
get_elem?-some (x ∷ xs) (suc i) h = get_elem?-some xs i (omega (arith, h))

shifted-lt : (d : Delta) (i n : ℕ) → 0 < n → shifted d i n < n
unfolding shifted
shifted-lt forward i n h = mod-lt (i + 1) h
shifted-lt backward i n h = mod-lt (i + n - 1) h

-- The place next to a place in a circle of `n`, and the end at which one starts.
abbrev pub IsNext : Delta → ℕ → ℕ → ℕ → Type 0
IsNext forward n i j = ((i + 1 < n) × (j ≡ i + 1)) ⊎ ((i + 1 ≡ n) × (j ≡ 0))
IsNext backward n i j = ((0 < i) × (j + 1 ≡ i)) ⊎ ((i ≡ 0) × (j + 1 ≡ n))

abbrev pub IsEnd : Delta → ℕ → ℕ → Type 0
IsEnd forward n j = j ≡ 0
IsEnd backward n j = j + 1 ≡ n

-- The focus is in the order, at this place first.
abbrev pub StandsAt : Option Target → List Target → ℕ → Type 0
StandsAt none order i = ⊥
StandsAt (some focus) order i =
    (target : Target) × (get_elem? order i ≡ some target)
    × (target_eq focus target ≡ true)
    × (any (target_eq focus) (take i order) ≡ false)

abbrev pub is_present : Option Target → List Target → Bool
is_present none order = false
is_present (some focus) order = any (target_eq focus) order

-- The place to which the focus goes.
abbrev pub IsTarget : Delta → Option Target → List Target → ℕ → Type 0
IsTarget d focus order j =
    ((i : ℕ) × StandsAt focus order i × IsNext d (length order) i j)
    ⊎ ((is_present focus order ≡ false) × IsEnd d (length order) j)

forward-IsNext : (n i : ℕ) → i < n → IsNext forward n i ((i + 1) % n)
forward-IsNext n i h = elim (Bool-cases (ltb (i + 1) n)) [
  | inl e ↦ inl (ground arith, mod-eq_of_lt (ground arith))
  | inr e ↦
      let same : i + 1 ≡ n = ground arith in
      inr (same, subst (λ k. k % n ≡ 0) (sym same) (mod_self n))
]

backward-IsNext : (n i : ℕ) → i < n → IsNext backward n i ((i + n - 1) % n)
backward-IsNext (suc n) zero h =
    let back : zero + suc n - 1 ≡ n = omega arith in
    let e = mod-eq_of_lt {n = n} {m = suc n} (omega arith) in
    inr (refl, subst (λ x. x % suc n + 1 ≡ suc n) (sym back) (omega (arith, e)))
backward-IsNext n (suc i) h =
    let back : suc i + n - 1 ≡ i + n = omega arith in
    let e = add-mod_right i n in
    let k = mod-eq_of_lt {n = i} {m = n} (omega (arith, h)) in
    inl (omega arith, subst (λ x. x % n + 1 ≡ suc i) (sym back) (omega (arith, e, k)))
backward-IsNext zero zero h = absurd (omega (arith, h))

shifted-IsNext : (d : Delta) (n i : ℕ) → i < n → IsNext d n i (shifted d i n)
unfolding shifted
shifted-IsNext forward n i h = forward-IsNext n i h
shifted-IsNext backward n i h = backward-IsNext n i h

end_for-IsEnd : (d : Delta) (n : ℕ) → 0 < n → IsEnd d n (end_for d n)
end_for-IsEnd forward n h = refl
end_for-IsEnd backward n h = omega (arith, h)

module _ {A : Type 0} (p : A → Bool) where
  -- What `position` finds, counted from `k`.
  abbrev IsFirst : List A → ℕ → ℕ → Type 0
  IsFirst xs k i =
      (m : ℕ) × (i ≡ k + m)
      × (m < length xs)
      × ((x : A) × (get_elem? xs m ≡ some x) × (p x ≡ true) × (any p (take m xs) ≡ false))

  position_from-IsFirst : (xs : List A) (k i : ℕ) → position_from k p xs ≡ some i → IsFirst xs k i
  position_from-IsFirst [] k i e = ground arith
  position_from-IsFirst (x ∷ xs) k i e = elim (Bool-cases (p x)) [
    | inl y ↦ (0, ground arith, omega arith, (x, refl, y, refl))
    | inr y ↦
        let (m, s, l, (z, g, t, f)) = position_from-IsFirst xs (suc k) i (ground arith) in
        (suc m, omega (arith, s), omega (arith, l), (z, g, t, rw y f))
  ]

  position_from-none : (xs : List A) (k : ℕ) → position_from k p xs ≡ none → any p xs ≡ false
  position_from-none [] k e = refl
  position_from-none (x ∷ xs) k e = elim (Bool-cases (p x)) [
    | inl y ↦ ground arith
    | inr y ↦ rw y (position_from-none xs (suc k) (ground arith))
  ]

index-IsTarget :
    (d : Delta) (focus : Option Target) (order : List Target)
    → 0 < length order
    → IsTarget d focus order (next_index d focus order)
unfolding next_index
index-IsTarget d none order h = inr (refl, end_for-IsEnd d (length order) h)
index-IsTarget d (some focus) order h = elim (Option-cases (position (target_eq focus) order)) [
  | inl e ↦
      rw (e, next_index)
        (inr (position_from-none (target_eq focus) order 0 e, end_for-IsEnd d (length order) h))
  | inr (i, e) ↦
      let (m, s, l, stands) = position_from-IsFirst (target_eq focus) order 0 i e in
      let at : i ≡ m = omega (arith, s) in
      rw (e, next_index, at) (inl (m, stands, shifted-IsNext d (length order) m l))
]

chosen-lt :
    (d : Delta) (o : Option ℕ) (n : ℕ)
    → 0 < n
    → (elim o as (λ _. ℕ) [ none ↦ end_for d n | some i ↦ shifted d i n ]) < n
chosen-lt forward none n h = h
chosen-lt backward none n h = omega (arith, h)
chosen-lt d (some i) n h = shifted-lt d i n h

next_index-lt :
    (d : Delta) (focus : Option Target) (t : Target) (ts : List Target)
    → next_index d focus (t ∷ ts) < length (t ∷ ts)
unfolding next_index
next_index-lt d focus t ts =
    chosen-lt d (current_index focus (t ∷ ts)) (length (t ∷ ts)) (omega arith)

-- The focus is on the control at the place to which it goes.
abbrev pub IsFocused : Delta → App → Step → Type 0
IsFocused d a s =
    (j : ℕ) × (target : Target) × IsTarget d a.focus_target (focus_order a) j
    × (get_elem? (focus_order a) j ≡ some target)
    × (s.0.focus_target ≡ some target)

found-IsFocused :
    (a : App) (o : Option Target) (target : Target)
    → o ≡ some target
    → (elim o as (λ _. Step) [ none ↦ (a, []) | some x ↦ set_focus x a ]).0.focus_target
      ≡ some target
unfolding set_focus close_session_menu
found-IsFocused a none target e = ground arith
found-IsFocused a (some x) target e = e

in_order :
    (d : Delta) (a : App) (order : List Target) (t : Target) (ts : List Target)
    → order ≡ t ∷ ts
    → (j : ℕ) × (target : Target) × IsTarget d a.focus_target order j
      × (get_elem? order j ≡ some target)
      × ((move_in d order a).0.focus_target ≡ some target)
unfolding move_in
in_order d a [] t ts e = ground arith
in_order d a (u ∷ us) t ts e =
    let (target, k) =
      get_elem?-some (u ∷ us) (next_index d a.focus_target (u ∷ us))
        (next_index-lt d a.focus_target u us) in
    (
      next_index d a.focus_target (u ∷ us),
      target,
      index-IsTarget d a.focus_target (u ∷ us) (omega arith),
      k,
      found-IsFocused a (get_elem? (u ∷ us) (next_index d a.focus_target (u ∷ us))) target k,
    )

-- Where the order of controls is not empty, the focus moves to a control of it: from the place
-- where the focus stands in the order, forward to the one behind it, and from the last to the
-- first; backward to the one before it, and from the first to the last. With no focus that is in
-- the order, it goes forward to the first control and backward to the last.
pub move_focus-IsFocused :
    (d : Delta) (a : App) (t : Target) (ts : List Target)
    → focus_order a ≡ t ∷ ts
    → IsFocused d a (move_focus d a)
unfolding move_focus
move_focus-IsFocused d a t ts e = in_order d a (focus_order a) t ts e
