-- ===== src/Container/Ceilings.antt =====
-- The ceilings of src/dynamic_wallpaper/container.rs hold after each box that has no children.
use genkan.Prelude.{
  ℕ, zero, suc, ◌^◌, ◌≤◌, ◌<◌, ◌+◌, ◌≡◌, Bool, ◌&&◌, not, List, [], ◌∷◌, Text, codes, text_eq, ◌==◌,
  ltb, leb, length, take, length-append, any, arith, if◌then◌else◌,
}
use genkan.Container.{read_u16, read_u32, limit, Budget, Header, Walked}
use genkan.Container.Boxes.{
  one_of, is_image_item, charge, parse_ftyp, parse_colr, old_entry, content_of, skip_uri, new_entry,
  add_item, count_item, parse_infe, sum_extents,
}
use genkan.Container.Readers.{
  Ensures, value, error, Any, bind-Ensures, if-Ensures, checked_add-Ensures, read-Ensures,
  advance-Ensures, u8-Ensures, u16-Ensures, u32-Ensures, uint-Ensures, cstring-Ensures,
}

-- This many boxes were counted, and no count exceeds its ceiling. The location records counted are those that were read, all boxes
-- together; an item loaded with the metadata is counted as an item, and an item as a box.
pub record IsWithin (budget : Budget) (seen : ℕ) (w : Walked) : Type 0 where
  pub items : w.totals.items ≤ budget.max_container_items
  pub iloc_records : w.totals.iloc_records ≤ budget.max_container_items
  pub iref_references : w.totals.iref_references ≤ budget.max_container_items
  pub ipma_entries : w.totals.ipma_entries ≤ budget.max_container_items
  pub ipma_associations : w.totals.ipma_associations ≤ budget.max_container_associations
  pub boxes : w.boxes ≤ budget.max_container_boxes
  pub metadata_items : length w.metadata_items ≤ budget.max_metadata_items
  pub located : length w.extents ≡ w.totals.iloc_records
  pub loaded : length w.metadata_items ≤ w.totals.items
  pub visited : w.totals.items ≤ w.boxes
  pub counted_boxes : w.boxes ≡ seen

pub charge-Ensures :
    (ceiling total added : ℕ) (name : Text)
    → Ensures (λ n. (n ≤ ceiling) × (n ≡ total + added)) (charge ceiling total added name)
unfolding charge
charge-Ensures ceiling total added name =
    bind-Ensures _ _ _ _ (checked_add-Ensures (2 ^ 32) total added (limit name))
      (λ sum h. if-Ensures _ (ltb ceiling sum) _ _ (λ _. error _) (λ e. value _ (ground arith, h)))

module _ (bytes : List ℕ) (budget : Budget) (seen : ℕ) where
  module _ (header : Header) (w : Walked) (h : IsWithin budget seen w) where
    pub ftyp-Ensures : Ensures (IsWithin budget seen) (parse_ftyp bytes budget header w)
    unfolding parse_ftyp
    ftyp-Ensures = bind-Ensures Any _ _ _ (read-Ensures bytes _ _ _) (λ body k.
        if-Ensures _ (ltb (length body) 8) _ _ (λ _. error _) (λ _. value _ (ground arith)))

    pub colr-Ensures : Ensures (IsWithin budget seen) (parse_colr bytes budget header w)
    unfolding parse_colr
    colr-Ensures = bind-Ensures Any _ _ _ (read-Ensures bytes _ _ _) (λ body k.
        if-Ensures _ (ltb (length body) 4) _ _ (λ _. error _)
          (λ _.
            if-Ensures _
              (one_of (take 4 body) (codes "prof" ∷ codes "rICC" ∷ []) && length body == 4) _ _
              (λ _. error _) (λ _. value _ h)))

  old-Ensures : (offset end : ℕ) → Ensures Any (old_entry bytes budget offset end)
  unfolding old_entry
  old-Ensures offset end = bind-Ensures Any Any _ _ (u16-Ensures bytes _ _) (λ id h.
      bind-Ensures Any Any _ _ (cstring-Ensures bytes _ _) (λ name h.
        bind-Ensures Any Any _ _ (cstring-Ensures bytes _ _) (λ content h.
          bind-Ensures Any Any _ _ (cstring-Ensures bytes _ _) (λ encoding h. value _ tt))))

  content-Ensures : (t : Text) (offset end : ℕ) → Ensures Any (content_of bytes budget t offset end)
  unfolding content_of
  content-Ensures t offset end =
      if-Ensures Any (text_eq t (codes "mime")) _ _ (λ _. cstring-Ensures bytes _ _)
        (λ _. value _ tt)

  uri-Ensures : (t : Text) (offset end : ℕ) → Ensures Any (skip_uri bytes budget t offset end)
  unfolding skip_uri
  uri-Ensures t offset end =
      if-Ensures Any (text_eq t (codes "uri ")) _ _
        (λ _. bind-Ensures Any Any _ _ (cstring-Ensures bytes _ _) (λ u h. value _ tt))
        (λ _. value _ tt)

  pub id-Ensures :
      (b : Bool) (offset end : ℕ)
      → Ensures Any (if b then read_u16 bytes offset end else read_u32 bytes offset end)
  id-Ensures b offset end =
      if-Ensures Any b _ _ (λ _. u16-Ensures bytes _ _) (λ _. u32-Ensures bytes _ _)

  new-Ensures : (version offset end : ℕ) → Ensures Any (new_entry bytes budget version offset end)
  unfolding new_entry
  new-Ensures version offset end =
      bind-Ensures Any Any _ _ (id-Ensures (version == 2) offset end) (λ id h.
        bind-Ensures Any Any _ _ (read-Ensures bytes _ _ _) (λ t h.
          bind-Ensures Any Any _ _ (cstring-Ensures bytes _ _) (λ name h.
            bind-Ensures Any Any _ _ (content-Ensures t _ _)
              (λ content h. bind-Ensures Any Any _ _ (uri-Ensures t _ _) (λ done h. value _ tt)))))

  add-Ensures :
      (id : ℕ) (t c : Text) (w : Walked)
      → IsWithin budget seen w
      → length w.metadata_items < w.totals.items
      → Ensures (IsWithin budget seen) (add_item bytes budget id t c w)
  unfolding add_item
  add-Ensures id t c w h l =
      if-Ensures _ (is_image_item t c && not (text_eq t (codes "mime"))) _ _ (λ _. value _ h)
        (λ _.
          if-Ensures _ (any (λ other. other == id) w.metadata_items) _ _ (λ _. value _ h)
            (λ _.
              if-Ensures _ (leb budget.max_metadata_items (length w.metadata_items)) _ _
                (λ _. error _)
                (λ e. value _ (ground (arith, length-append w.metadata_items (id ∷ []))))))

  count-Ensures :
      (entry : ℕ × Text × Text) (w : Walked)
      → IsWithin budget seen w
      → w.totals.items < w.boxes
      → Ensures (IsWithin budget seen) (count_item bytes budget entry w)
  unfolding count_item
  count-Ensures (id, t, c) w h l =
      bind-Ensures _ _ _ _ (charge-Ensures budget.max_container_items _ _ _)
        (λ items k. add-Ensures id t c _ (ground arith) (omega (arith, k.1, h.loaded)))

  pub infe-Ensures :
      (header : Header) (w : Walked)
      → IsWithin budget seen w
      → w.totals.items < w.boxes
      → Ensures (IsWithin budget seen) (parse_infe bytes budget header w)
  unfolding parse_infe
  infe-Ensures header w h fresh = bind-Ensures Any _ _ _ (u8-Ensures bytes _ _) (λ version k.
      bind-Ensures Any _ _ _
        (if-Ensures Any (ltb 3 version) _ _ (λ _. error _)
          (λ _.
            if-Ensures Any (leb version 1) _ _ (λ _. old-Ensures _ _)
              (λ _. new-Ensures version _ _)))
        (λ entry l. count-Ensures entry w h fresh))

  pub extents-Ensures :
      (n a b c offset end total : ℕ)
      → Ensures Any (sum_extents bytes budget n a b c offset end total)
  unfolding sum_extents
  extents-Ensures zero a b c offset end total = value _ tt
  extents-Ensures (suc n) a b c offset end total =
      bind-Ensures Any Any _ _ (advance-Ensures bytes _ _ _) (λ o1 h.
        bind-Ensures Any Any _ _ (advance-Ensures bytes _ _ _) (λ o2 h.
          bind-Ensures Any Any _ _ (uint-Ensures bytes _ _ _) (λ size h.
            bind-Ensures _ Any _ _
              (checked_add-Ensures (2 ^ 64) total size (limit (codes "item extent bytes")))
              (λ sum h.
                bind-Ensures Any Any _ _ (advance-Ensures bytes o2 c end)
                  (λ o3 h. extents-Ensures n a b c o3 end sum)))))
