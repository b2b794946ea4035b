-- ===== src/OutputSelection/Order.antt =====
-- `select` of crates/output-selection/src/lib.rs does not depend on the order in which outputs are
-- discovered.
use mathlib.Core.List.{Memᴰ}
use genkan.Prelude.{
  false, Option, some, List, [], ◌∷◌, Text, text_ltb, ◌≡◌, sym, ap, ◌∙◌, subst, inl, inr, arith,
  Option-cases, text_trichotomy,
}
use genkan.OutputSelection.{internal_fallback, select}
use genkan.OutputSelection.Choice.{
  Reason, by_name, least_external, internal, unnamed, IsUnavailable, select-Reason, select-none,
}

module _ {ℓ} {A : Type ℓ} where
  -- The same outputs, in any order.
  pub record SameOutputs (xs ys : List (A × Option Text)) : Type ℓ where
    pub to : (x : A × Option Text) → Memᴰ x xs → Memᴰ x ys
    pub from : (x : A × Option Text) → Memᴰ x ys → Memᴰ x xs

  -- No two outputs share a connector name.
  abbrev pub HasDistinctNames : List (A × Option Text) → Type ℓ
  HasDistinctNames xs = (a b : A) (n : Text) → Memᴰ (a, some n) xs → Memᴰ (b, some n) xs → a ≡ b

module _ {ℓ} {A : Type ℓ} (xs ys : List (A × Option Text)) (requested : Option Text)
    (same : SameOutputs xs ys) (distinct : HasDistinctNames xs) (c : A) (name : Text)
    (named : Memᴰ (c, some name) xs) where
  unavailable_absurd :
      (zs : List (A × Option Text)) (r : Text) (a : A)
      → IsUnavailable zs requested
      → requested ≡ some r
      → Memᴰ (a, some r) zs
      → ⊥
  unavailable_absurd zs r a gone e m = gone r e a m

  least_unique :
      (a b : A) (n m : Text)
      → Memᴰ (a, some n) xs
      → Memᴰ (b, some m) xs
      → text_ltb n m ≡ false
      → text_ltb m n ≡ false
      → a ≡ b
  least_unique a b n m ma mb h k =
      let e : n ≡ m = ground (arith, text_trichotomy n m) in
      distinct a b m (subst (λ t. Memᴰ (a, some t) xs) e ma) mb

  Reason-unique : (a b : A) → Reason xs requested a → Reason ys requested b → a ≡ b
  Reason-unique a b (by_name r e m) (by_name s k l) =
      let q : s ≡ r = ground arith in
      distinct a b r m (subst (λ t. Memᴰ (b, some t) xs) q (same.from _ l))
  Reason-unique a b (by_name r e m) (least_external gone n l far least) =
      absurd (gone r e a (same.to _ m))
  Reason-unique a b (by_name r e m) (internal gone l near) = absurd (gone r e a (same.to _ m))
  Reason-unique a b (by_name r e m) (unnamed k l bare) = absurd (bare a r (same.to _ m))
  Reason-unique a b (least_external gone n l far least) (by_name r e m) =
      absurd (gone r e b (same.from _ m))
  Reason-unique a b (least_external gone n l far least) (least_external gone' n' l' far' least') =
      least_unique a b n n' l (same.from _ l') (least' a n (same.to _ l) far)
        (least b n' (same.from _ l') far')
  Reason-unique a b (least_external gone n l far least) (internal gone' l' near) =
      let e = near a n (same.to _ l) in absurd (ground arith)
  Reason-unique a b (least_external gone n l far least) (unnamed k l' bare) =
      absurd (bare a n (same.to _ l))
  Reason-unique a b (internal gone l near) (by_name r e m) = absurd (gone r e b (same.from _ m))
  Reason-unique a b (internal gone l near) (least_external gone' n l' far least) =
      let e = near b n (same.from _ l') in absurd (ground arith)
  Reason-unique a b (internal gone l near) (internal gone' l' near') =
      distinct a b internal_fallback l (same.from _ l')
  Reason-unique a b (internal gone l near) (unnamed k l' bare) = absurd (bare a _ (same.to _ l))
  Reason-unique a b (unnamed k l bare) _ = absurd (bare c name named)

  -- Two lists of the same outputs with distinct names, one of them named: `select` picks the same
  -- output from both, whatever is requested.
  pub select-SameOutputs : select xs requested ≡ select ys requested
  select-SameOutputs = elim (Option-cases (select xs requested)) [
    | inl e ↦ absurd (no_mem xs (select-none xs requested e) named)
    | inr (a, e) ↦ elim (Option-cases (select ys requested)) [
      | inl k ↦ absurd (no_mem ys (select-none ys requested k) (same.to _ named))
      | inr (b, k) ↦
          e
          ∙ (ap some (
                Reason-unique a b (select-Reason xs requested a e) (select-Reason ys requested b k))
              ∙ sym k)
    ]
  ]
    where
      no_mem : (zs : List (A × Option Text)) → zs ≡ [] → Memᴰ (c, some name) zs → ⊥
      no_mem [] e m = elim m [ ]
      no_mem (z ∷ zs) e m = absurd (ground arith)
