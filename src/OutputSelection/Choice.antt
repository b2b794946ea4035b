-- ===== src/OutputSelection/Choice.antt =====
-- What `select` of crates/output-selection/src/lib.rs promises to its callers: which connector it
-- picks, and that the order of discovery does not matter once an output has a name.
use mathlib.Core.List.{Memᴰ}
use mathlib.Core.List.Memᴰ
use genkan.Prelude.{
  true, false, Option, none, some, List, [], ◌∷◌, Text, text_eq, text_ltb, ◌≡◌, refl, ap, ◌∙◌,
  subst, inl, inr, arith, Option-cases, Bool-cases, text_eq→eq, text_eq_self, text_ltb_irrefl,
  text_ltb_trans, text_leb_trans,
}
use genkan.OutputSelection.{
  internal_fallback, find_named, externals, min_from, min_by_key, first, default_output, by_request,
  select,
}

module _ {ℓ} {A : Type ℓ} where
  find_named_sound :
      (n : Text) (xs : List (A × Option Text)) (a : A)
      → find_named n xs ≡ some a
      → Memᴰ (a, some n) xs
  unfolding find_named
  find_named_sound n [] a h = absurd (ground arith)
  find_named_sound n ((b, none) ∷ xs) a h = Memᴰ.tail (find_named_sound n xs a h)
  find_named_sound n ((b, some m) ∷ xs) a h = elim (Bool-cases (text_eq m n)) [
    | inl e ↦ Memᴰ.head (ground (arith, text_eq→eq m n))
    | inr e ↦ Memᴰ.tail (find_named_sound n xs a (ground arith))
  ]

  find_named_complete :
      (n : Text) (xs : List (A × Option Text)) (a : A)
      → Memᴰ (a, some n) xs
      → find_named n xs ≡ none
      → ⊥
  unfolding find_named
  find_named_complete n [] a m h = elim m [ ]
  find_named_complete n ((b, none) ∷ xs) a (Memᴰ.head e) h =
      cc (ap (λ (p : A × Option Text). p.1) e)
  find_named_complete n ((b, some m) ∷ xs) a (Memᴰ.head e) h =
      let q = ap (λ (p : A × Option Text). p.1) e in ground (arith, text_eq_self n)
  find_named_complete n ((b, none) ∷ xs) a (Memᴰ.tail t) h = find_named_complete n xs a t h
  find_named_complete n ((b, some m) ∷ xs) a (Memᴰ.tail t) h =
      find_named_complete n xs a t (ground arith)

  externals_sound :
      (n : Text) (a : A) (xs : List (A × Option Text))
      → Memᴰ (n, a) (externals xs)
      → Memᴰ (a, some n) xs × (text_eq n internal_fallback ≡ false)
  unfolding externals
  externals_sound n a [] m = elim m [ ]
  externals_sound n a ((b, none) ∷ xs) m = let r = externals_sound n a xs m in (Memᴰ.tail r.0, r.1)
  externals_sound n a ((b, some k) ∷ xs) m = elim (Bool-cases (text_eq k internal_fallback)) [
    | inl e ↦ let r = externals_sound n a xs (rw e at m) in (Memᴰ.tail r.0, r.1)
    | inr e ↦ elim (Memᴰ.cases_cons (rw e at m)) [
      | inl q ↦
          let same = ap (λ (p : Text × A). p.0) q in
          let same_output = ap (λ (p : Text × A). p.1) q in
          (Memᴰ.head (λ i. (same_output i, some (same i))), rw same e)
      | inr t ↦ let r = externals_sound n a xs t in (Memᴰ.tail r.0, r.1)
    ]
  ]

  externals_complete :
      (n : Text) (a : A) (xs : List (A × Option Text))
      → Memᴰ (a, some n) xs
      → text_eq n internal_fallback ≡ false
      → Memᴰ (n, a) (externals xs)
  unfolding externals
  externals_complete n a [] m h = elim m [ ]
  externals_complete n a ((b, none) ∷ xs) (Memᴰ.head e) h = cc (ap (λ (p : A × Option Text). p.1) e)
  externals_complete n a ((b, none) ∷ xs) (Memᴰ.tail m) h = externals_complete n a xs m h
  externals_complete n a ((b, some k) ∷ xs) (Memᴰ.head e) h =
      let same : n ≡ k = ground (arith, ap (λ (p : A × Option Text). p.1) e) in
      rw (rw same at h) (Memᴰ.head (λ i. (same i, (ap (λ (p : A × Option Text). p.0) e) i)))
  externals_complete n a ((b, some k) ∷ xs) (Memᴰ.tail m) h =
      elim (Bool-cases (text_eq k internal_fallback)) [
        | inl e ↦ rw e (externals_complete n a xs m h)
        | inr e ↦ rw e (Memᴰ.tail (externals_complete n a xs m h))
      ]

  -- The minimum is one of the candidates, and no candidate has a smaller name.
  min_from_sound :
      (best : Text × A) (xs : List (Text × A))
      → Memᴰ (min_from best xs) (best ∷ xs)
        × (text_ltb best.0 (min_from best xs).0 ≡ false)
        × ((x : Text × A) → Memᴰ x xs → text_ltb x.0 (min_from best xs).0 ≡ false)
  unfolding min_from
  min_from_sound best [] = (Memᴰ.head refl, text_ltb_irrefl best.0, λ x m. elim m [ ])
  min_from_sound best (y ∷ xs) = elim (Bool-cases (text_ltb y.0 best.0)) [
    | inl e ↦
        let r = min_from_sound y xs in
        let least = min_from y xs in
        (
          rw e (Memᴰ.tail r.0),
          rw (e, min_from) (ground (arith, text_ltb_trans y.0 best.0 least.0)),
          λ x m.
              rw (e, min_from)
                (elim (Memᴰ.cases_cons m) [
                  | inl q ↦ rw (ap (λ (p : Text × A). p.0) q) r.1
                  | inr t ↦ r.2 x t
                ]),
        )
    | inr e ↦
        let r = min_from_sound best xs in
        let least = min_from best xs in
        (
          rw e (elim (Memᴰ.cases_cons r.0) [
            | inl q ↦ Memᴰ.head q
            | inr t ↦ Memᴰ.tail (Memᴰ.tail t)
          ]),
          rw (e, min_from) r.1,
          λ x m.
              rw (e, min_from)
                (elim (Memᴰ.cases_cons m) [
                  | inl q ↦
                      rw (ap (λ (p : Text × A). p.0) q) (text_leb_trans least.0 best.0 y.0 r.1 e)
                  | inr t ↦ r.2 x t
                ]),
        )
  ]

  -- The same for the option: no candidate, or a least one.
  min_by_key_sound :
      (xs : List (Text × A)) (a : A)
      → min_by_key xs ≡ some a
      → (n : Text) × Memᴰ (n, a) xs × ((x : Text × A) → Memᴰ x xs → text_ltb x.0 n ≡ false)
  unfolding min_by_key
  min_by_key_sound [] a h = absurd (ground arith)
  min_by_key_sound (y ∷ xs) a h =
      let r = min_from_sound y xs in
      let same : (min_from y xs).1 ≡ a = ground arith in
      (
        (min_from y xs).0,
        subst (λ b. Memᴰ ((min_from y xs).0, b) (y ∷ xs)) same r.0,
        λ x m. elim (Memᴰ.cases_cons m) [
          | inl q ↦ rw (ap (λ (p : Text × A). p.0) q) r.1
          | inr t ↦ r.2 x t
        ],
      )

  min_by_key-none : (xs : List (Text × A)) {x : Text × A} → Memᴰ x xs → ¬ (min_by_key xs ≡ none)
  unfolding min_by_key
  min_by_key-none [] m = λ e. elim m [ ]
  min_by_key-none (y ∷ xs) m = λ e. ground arith

  first-none : (xs : List (A × Option Text)) → first xs ≡ none → xs ≡ []
  unfolding first
  first-none [] h = refl
  first-none (x ∷ xs) h = absurd (ground arith)

  first_sound :
      (xs : List (A × Option Text)) (a : A)
      → first xs ≡ some a
      → (name : Option Text) × Memᴰ (a, name) xs
  unfolding first
  first_sound [] a h = absurd (ground arith)
  first_sound ((b, name) ∷ xs) a h = (name, Memᴰ.head (ground arith))

  -- The request, if there was one, names no output.
  abbrev pub IsUnavailable : List (A × Option Text) → Option Text → Type ℓ
  IsUnavailable outputs requested =
      (r : Text) → requested ≡ some r → (b : A) → ¬ Memᴰ (b, some r) outputs

  -- Why an output was chosen.
  pub data Reason (outputs : List (A × Option Text)) (requested : Option Text) (a : A)
      : Type ℓ where
    by_name :
        (r : Text) → requested ≡ some r → Memᴰ (a, some r) outputs → Reason outputs requested a
    least_external :
        IsUnavailable outputs requested
        → (n : Text) → Memᴰ (a, some n) outputs
        → text_eq n internal_fallback ≡ false
        → ((b : A) (m : Text)
            → Memᴰ (b, some m) outputs
            → text_eq m internal_fallback ≡ false
            → text_ltb m n ≡ false)
        → Reason outputs requested a
    internal :
        IsUnavailable outputs requested
        → Memᴰ (a, some internal_fallback) outputs
        → ((b : A) (m : Text) → Memᴰ (b, some m) outputs → text_eq m internal_fallback ≡ true)
        → Reason outputs requested a
    unnamed :
        (name : Option Text)
        → Memᴰ (a, name) outputs
        → ((b : A) (m : Text) → ¬ Memᴰ (b, some m) outputs)
        → Reason outputs requested a

  by_request-IsUnavailable :
      (outputs : List (A × Option Text)) (requested : Option Text)
      → by_request outputs requested ≡ none
      → IsUnavailable outputs requested
  unfolding by_request
  by_request-IsUnavailable outputs none h r e b m = cc
  by_request-IsUnavailable outputs (some q) h r e b m =
      let same : q ≡ r = ground arith in find_named_complete r outputs b m (rw same at h)

  by_request_sound :
      (outputs : List (A × Option Text)) (requested : Option Text) (a : A)
      → by_request outputs requested ≡ some a
      → Reason outputs requested a
  unfolding by_request
  by_request_sound outputs none a h = absurd (ground arith)
  by_request_sound outputs (some r) a h = by_name r refl (find_named_sound r outputs a h)

  no_external :
      (outputs : List (A × Option Text))
      → min_by_key (externals outputs) ≡ none
      → (b : A) (m : Text) → Memᴰ (b, some m) outputs
      → text_eq m internal_fallback ≡ true
  no_external outputs h b m mem = elim (Bool-cases (text_eq m internal_fallback)) [
    | inl e ↦ e
    | inr e ↦ absurd (min_by_key-none (externals outputs) (externals_complete m b outputs mem e) h)
  ]

  no_name :
      (outputs : List (A × Option Text))
      → min_by_key (externals outputs) ≡ none
      → find_named internal_fallback outputs ≡ none
      → (b : A) (m : Text) → ¬ Memᴰ (b, some m) outputs
  no_name outputs h k b m mem =
      let same = text_eq→eq m internal_fallback (no_external outputs h b m mem) in
      find_named_complete internal_fallback outputs b
        (subst (λ n. Memᴰ (b, some n) outputs) same mem) k

  default-Reason :
      (outputs : List (A × Option Text)) (requested : Option Text) (a : A)
      → IsUnavailable outputs requested
      → default_output outputs ≡ some a
      → Reason outputs requested a
  unfolding default_output
  default-Reason outputs requested a gone h = elim (Option-cases (min_by_key (externals outputs))) [
    | inr (b, e) ↦
        let same : b ≡ a = ground arith in
        let r = min_by_key_sound (externals outputs) a (e ∙ ap some same) in
        let s = externals_sound r.0 a outputs r.1 in
        least_external gone r.0 s.0 s.1
          (λ c m mem far. r.2 (m, c) (externals_complete m c outputs mem far))
    | inl e ↦ elim (Option-cases (find_named internal_fallback outputs)) [
      | inr (b, k) ↦
          let same : b ≡ a = ground arith in
          internal gone (find_named_sound internal_fallback outputs a (k ∙ ap some same))
            (no_external outputs e)
      | inl k ↦
          let r = first_sound outputs a (ground arith) in unnamed r.0 r.1 (no_name outputs e k)
    ]
  ]

  -- `select` returns an output only for one of four reasons: it carries the requested name; or no
  -- output does, and its name is the least of the external ones; or there is no external output and
  -- it is the internal panel; or no output has a name.
  pub select-Reason :
      (outputs : List (A × Option Text)) (requested : Option Text) (a : A)
      → select outputs requested ≡ some a
      → Reason outputs requested a
  unfolding select
  select-Reason outputs requested a h = elim (Option-cases (by_request outputs requested)) [
    | inr (b, e) ↦
        let same : b ≡ a = ground arith in by_request_sound outputs requested a (e ∙ ap some same)
    | inl e ↦
        default-Reason outputs requested a (by_request-IsUnavailable outputs requested e)
          (ground arith)
  ]

  -- `select` fails only when there is no output at all.
  pub select-none :
      (outputs : List (A × Option Text)) (requested : Option Text)
      → select outputs requested ≡ none
      → outputs ≡ []
  unfolding select default_output
  select-none outputs requested h = first-none outputs (ground arith)
