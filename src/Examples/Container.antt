-- ===== src/Examples/Container.antt =====
-- A small HEIF container with one text item.
use genkan.Prelude.{[], ◌∷◌, ◌++◌, ◌≢◌, codes, Text}
use genkan.Container.{Budget, out_of_fuel}
use genkan.Container.Walk.{preflight}
use genkan.Container.Bounds.{preflight_ends}

abbrev budget : Budget
budget = record {
  max_container_items = 4;
  max_container_associations = 4;
  max_metadata_items = 1;
  max_metadata_bytes = 100;
  max_container_boxes = 3;
  max_container_depth = 2;
  max_item_extents = 1;
}

abbrev item : Text
item =
    0
    ∷ 0
    ∷ 0
    ∷ 23
    ∷ (codes "infe" ++ (2 ∷ 0 ∷ 0 ∷ 0 ∷ 0 ∷ 7 ∷ 0 ∷ 0 ∷ (codes "mime" ++ (0 ∷ 97 ∷ 0 ∷ []))))

abbrev items : Text
items = 0 ∷ 0 ∷ 0 ∷ 37 ∷ (codes "iinf" ++ (0 ∷ 0 ∷ 0 ∷ 0 ∷ 0 ∷ 1 ∷ item))

abbrev file : Text
file = 0 ∷ 0 ∷ 0 ∷ 49 ∷ (codes "meta" ++ (0 ∷ 0 ∷ 0 ∷ 0 ∷ items))

preflight_ends_example : preflight file budget ≢ out_of_fuel
preflight_ends_example = preflight_ends file budget
