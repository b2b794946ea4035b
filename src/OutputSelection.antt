-- ===== src/OutputSelection.antt =====
-- crates/output-selection/src/lib.rs: the connector that presents authentication.
-- A connector name is the list of its code points.
pub mod Choice
pub mod Order
use genkan.Prelude.{
  Bool, Option, none, some, List, [], ◌∷◌, Text, codes, text_eq, text_ltb, not, if◌then◌else◌,
  or_else,
}

abbrev pub internal_fallback : Text
internal_fallback = codes "eDP-1"

abbrev pub has_name : Text → Option Text → Bool
has_name n none = Bool.false
has_name n (some m) = text_eq m n

module _ {ℓ} {A : Type ℓ} where
  -- `outputs.iter().find(|(_, name)| name == Some(n))`
  pub find_named : Text → List (A × Option Text) → Option A
  find_named n [] = none
  find_named n ((a, name) ∷ rest) =
      let r = find_named n rest in if has_name n name then some a else r

  -- The `filter_map`: named outputs other than the internal panel.
  pub externals : List (A × Option Text) → List (Text × A)
  externals [] = []
  externals ((a, none) ∷ rest) = externals rest
  externals ((a, some n) ∷ rest) =
      let r = externals rest in if not (text_eq n internal_fallback) then (n, a) ∷ r else r

  -- `min_by_key` keeps the first of equal minima.
  pub min_from : Text × A → List (Text × A) → Text × A
  min_from best [] = best
  min_from best (x ∷ rest) = min_from (if text_ltb x.0 best.0 then x else best) rest

  pub min_by_key : List (Text × A) → Option A
  unfolding min_from
  min_by_key [] = none
  min_by_key (x ∷ rest) = some (min_from x rest).1

  pub first : List (A × Option Text) → Option A
  first [] = none
  first (x ∷ rest) = some x.0

  pub default_output : List (A × Option Text) → Option A
  unfolding find_named externals min_by_key first
  default_output outputs =
      or_else (or_else (min_by_key (externals outputs)) (find_named internal_fallback outputs))
        (first outputs)

  pub by_request : List (A × Option Text) → Option Text → Option A
  unfolding find_named
  by_request outputs none = none
  by_request outputs (some r) = find_named r outputs

  unfoldable pub select : List (A × Option Text) → Option Text → Option A
  unfolding by_request default_output
  select outputs requested = or_else (by_request outputs requested) (default_output outputs)
