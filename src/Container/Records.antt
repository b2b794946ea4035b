-- ===== src/Container/Records.antt =====
-- The same of the boxes that hold records and references.
use genkan.Prelude.{
  ℕ, zero, suc, ◌+◌, ◌-◌, ◌*◌, ◌/◌, ◌%◌, ◌^◌, ◌≤◌, ◌≡◌, length, length-append, Bool, ◌&&◌, ◌||◌,
  not, List, [], ◌∷◌, codes, ◌==◌, ltb, leb, take, arith, if◌then◌else◌,
}
use genkan.Container.{big_endian, limit, Result, ok, Budget, Header, Walked, Extent, usize}
use genkan.Container.Boxes.{
  is_width, read_records, read_locations, parse_iloc, each_child, charge_references,
  take_references, parse_iref, look_size, take_list, parse_tref, read_associations, parse_ipma,
}
use genkan.Container.Readers.{
  Ensures, value, error, Any, bind-Ensures, if-Ensures, checked_add-Ensures, read-Ensures,
  advance-Ensures, u8-Ensures, u16-Ensures, u32-Ensures, read_header-Ensures,
}
use genkan.Container.Ceilings.{IsWithin, charge-Ensures, id-Ensures, extents-Ensures}

module _ (bytes : List ℕ) (budget : Budget) (seen : ℕ) where
  -- While `n` records are yet to be read, the count is ahead of those that were.
  abbrev IsReading : ℕ → Walked → Type 0
  IsReading n w =
      IsWithin budget seen
        (record w { totals = record w.totals { iloc_records = length w.extents } })
      × (length w.extents + n ≡ w.totals.iloc_records)
      × (w.totals.iloc_records ≤ budget.max_container_items)

  records-Ensures :
      (n version a b c d offset end : ℕ) (w : Walked)
      → IsReading n w
      → Ensures (IsWithin budget seen) (read_records bytes budget n version a b c d offset end w)
  unfolding read_records
  records-Ensures zero version a b c d offset end w (h, l, m) = value _ (ground arith)
  records-Ensures (suc n) version a b c d offset end w (h, l, m) =
      bind-Ensures Any _ _ _ (id-Ensures bytes budget seen (ltb version 2) _ _) (λ id k.
        bind-Ensures Any _ _ _ (advance-Ensures bytes _ _ _) (λ o3 k.
          bind-Ensures Any _ _ _ (u16-Ensures bytes _ _) (λ extent_count k.
            bind-Ensures Any _ _ _
              (if-Ensures Any (ltb budget.max_item_extents extent_count) _ _ (λ _. error _)
                (λ _. extents-Ensures bytes budget seen extent_count a b c _ _ _))
              (λ summed k.
                let next : List Extent = record { id = id; bytes = summed.0 } ∷ [] in
                let grown = length-append w.extents next in
                records-Ensures n version a b c d _ end _
                  (ground (arith, grown), omega (arith, l, grown), m)))))

  locations-Ensures :
      (version widths offset end : ℕ) (w : Walked)
      → IsWithin budget seen w
      → Ensures (IsWithin budget seen) (read_locations bytes budget version widths offset end w)
  unfolding read_locations
  locations-Ensures version widths offset end w h =
      let index_size = if leb 1 version then widths % 16 else 0 in
      let offset_size = widths / 2 ^ 12 % 16 in
      let length_size = widths / 2 ^ 8 % 16 in
      let base_size = widths / 2 ^ 4 % 16 in
      if-Ensures _
        (not (
          is_width bytes budget offset_size
          && (is_width bytes budget length_size
              && (is_width bytes budget base_size && is_width bytes budget index_size))))
        _ _ (λ _. error _)
        (λ _.
          bind-Ensures Any _ _ _ (id-Ensures bytes budget seen (ltb version 2) offset end)
            (λ item_count k.
              bind-Ensures _ _ _ _
                (charge-Ensures budget.max_container_items w.totals.iloc_records item_count
                  (codes "item location record count"))
                (λ n l.
                  records-Ensures item_count version index_size offset_size length_size base_size
                    (offset + (if ltb version 2 then 2 else 4)) end
                    (record w { totals = record w.totals { iloc_records = n } })
                    (ground arith, omega (arith, l.1, h.located), l.0))))

  pub iloc-Ensures :
      (header : Header) (w : Walked)
      → IsWithin budget seen w
      → Ensures (IsWithin budget seen) (parse_iloc bytes budget header w)
  unfolding parse_iloc
  iloc-Ensures header w h =
      bind-Ensures Any _ _ _ (u8-Ensures bytes header.body_start header.body_end) (λ version k.
        if-Ensures _ (ltb 2 version) _ _ (λ _. error _)
          (λ _.
            bind-Ensures Any _ _ _ (u16-Ensures bytes _ _)
              (λ widths l. locations-Ensures version widths _ _ w h)))

  children-Ensures :
      (fuel : ℕ) (look : ℕ → Result (Unit {0})) (take_child : Header → Walked → Result Walked)
      (offset end : ℕ) (w : Walked)
      → ((o : ℕ) → Ensures Any (look o))
      → ((child : Header) (v : Walked)
          → IsWithin budget seen v
          → Ensures (IsWithin budget seen) (take_child child v))
      → end ≤ offset + fuel
      → IsWithin budget seen w
      → Ensures (IsWithin budget seen) (each_child bytes budget fuel look take_child offset end w)
  unfolding each_child
  children-Ensures zero look take_child offset end w p q l h =
      if-Ensures _ (ltb offset end) _ _ (λ e. absurd (ground arith)) (λ _. value _ h)
  children-Ensures (suc fuel) look take_child offset end w p q l h =
      if-Ensures _ (ltb offset end) _ _
        (λ _. bind-Ensures Any _ _ _ (p offset) (λ done k.
          bind-Ensures _ _ _ _ (read_header-Ensures bytes offset end) (λ child c.
            bind-Ensures _ _ _ _ (q child w h) (λ v k.
              children-Ensures fuel look take_child child.next end v p q
                (omega (arith, l, c.after, c.ordered, c.joined)) k))))
        (λ _. value _ h)

  charge_references-Ensures :
      (count : ℕ) (w : Walked)
      → IsWithin budget seen w
      → Ensures (IsWithin budget seen) (charge_references bytes budget count w)
  unfolding charge_references
  charge_references-Ensures count w h =
      bind-Ensures _ _ _ _
        (charge-Ensures budget.max_container_items w.totals.iref_references count
          (codes "reference count"))
        (λ n k. value _ (ground arith))

  references-Ensures :
      (id_size : ℕ) (child : Header) (w : Walked)
      → IsWithin budget seen w
      → Ensures (IsWithin budget seen) (take_references bytes budget id_size child w)
  unfolding take_references
  references-Ensures id_size child w h =
      bind-Ensures Any _ _ _ (u16-Ensures bytes (child.body_start + id_size) child.body_end)
        (λ count k.
          if-Ensures _ (count == 0) _ _ (λ _. error _)
            (λ _. bind-Ensures _ _ _ _ (charge_references-Ensures count w h) (λ v l.
              bind-Ensures _ _ _ _
                (checked_add-Ensures usize child.body_start (id_size + 2 + count * id_size)
                  (limit (codes "reference count")))
                (λ expected m.
                  if-Ensures _ (expected == child.body_end) _ _ (λ _. value _ l) (λ _. error _)))))

  pub iref-Ensures :
      (header : Header) (w : Walked)
      → IsWithin budget seen w
      → Ensures (IsWithin budget seen) (parse_iref bytes budget header w)
  unfolding parse_iref
  iref-Ensures header w h =
      bind-Ensures Any _ _ _ (read-Ensures bytes header.body_start 4 header.body_end) (λ prefix k.
        if-Ensures _ (ltb 1 (big_endian (take 1 prefix) 0)) _ _ (λ _. error _)
          (λ _.
            children-Ensures (header.body_end - header.body_start) (λ _. ok tt)
              (take_references bytes budget (if big_endian (take 1 prefix) 0 == 0 then 2 else 4))
              (header.body_start + 4) header.body_end w (λ o. value tt tt) (references-Ensures _)
              (omega arith) h))

  size-Ensures : (end offset : ℕ) → Ensures Any (look_size bytes budget end offset)
  unfolding look_size
  size-Ensures end offset =
      bind-Ensures Any Any _ _ (u32-Ensures bytes offset end)
        (λ declared h. if-Ensures Any (declared == 0) _ _ (λ _. error _) (λ _. value _ tt))

  list-Ensures :
      (child : Header) (w : Walked)
      → IsWithin budget seen w
      → Ensures (IsWithin budget seen) (take_list bytes budget child w)
  unfolding take_list
  list-Ensures child w h =
      let size = child.body_end - child.body_start in
      if-Ensures _ (ltb size 4 || not (size % 4 == 0)) _ _ (λ _. error _)
        (λ _.
          if-Ensures _ (leb (2 ^ 32) (size / 4)) _ _ (λ _. error _)
            (λ _. charge_references-Ensures (size / 4) w h))

  pub tref-Ensures :
      (header : Header) (w : Walked)
      → IsWithin budget seen w
      → Ensures (IsWithin budget seen) (parse_tref bytes budget header w)
  unfolding parse_tref
  tref-Ensures header w h =
      children-Ensures _ _ _ header.body_start header.body_end w (size-Ensures header.body_end)
        list-Ensures (omega arith) h

  associations-Ensures :
      (n version : ℕ) (is_wide : Bool) (offset end : ℕ) (w : Walked)
      → IsWithin budget seen w
      → Ensures
          (IsWithin budget seen)
          (read_associations bytes budget n version is_wide offset end w)
  unfolding read_associations
  associations-Ensures zero version is_wide offset end w h = value _ h
  associations-Ensures (suc n) version is_wide offset end w h =
      bind-Ensures Any _ _ _ (advance-Ensures bytes offset (if ltb version 1 then 2 else 4) end)
        (λ o1 k. bind-Ensures Any _ _ _ (u8-Ensures bytes o1 end) (λ associations k.
          bind-Ensures _ _ _ _
            (charge-Ensures budget.max_container_associations w.totals.ipma_associations
              associations (codes "property association count"))
            (λ total l.
              bind-Ensures Any _ _ _
                (advance-Ensures bytes (o1 + 1) (associations * (if is_wide then 2 else 1)) end)
                (λ o2 k. associations-Ensures n version is_wide o2 end _ (ground arith)))))

  pub ipma-Ensures :
      (header : Header) (w : Walked)
      → IsWithin budget seen w
      → Ensures (IsWithin budget seen) (parse_ipma bytes budget header w)
  unfolding parse_ipma
  ipma-Ensures header w h =
      bind-Ensures Any _ _ _ (u8-Ensures bytes header.body_start header.body_end) (λ version k.
        if-Ensures _ (ltb 1 version) _ _ (λ _. error _)
          (λ _.
            bind-Ensures Any _ _ _ (u8-Ensures bytes (header.body_start + 3) header.body_end)
              (λ flags k.
                bind-Ensures Any _ _ _ (u32-Ensures bytes (header.body_start + 4) header.body_end)
                  (λ entry_count k.
                    bind-Ensures _ _ _ _
                      (charge-Ensures budget.max_container_items w.totals.ipma_entries entry_count
                        (codes "property association count"))
                      (λ n l.
                        associations-Ensures entry_count version (not (flags % 2 == 0)) _
                          header.body_end _ (ground arith))))))
