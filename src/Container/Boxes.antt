-- ===== src/Container/Boxes.antt =====
-- The boxes of src/dynamic_wallpaper/container.rs that have no children of their own.
use genkan.Prelude.{
  ℕ, zero, suc, ◌+◌, ◌-◌, ◌*◌, ◌/◌, ◌%◌, ◌^◌, Bool, false, ◌&&◌, ◌||◌, not, List, [], ◌∷◌, ◌++◌,
  Text, codes, text_eq, ◌==◌, ltb, leb, length, take, drop, if◌then◌else◌, any,
}
use genkan.Container.{
  container, limit, Result, ok, err, out_of_fuel, big_endian, ◌>>=◌, Budget, Header, Walked,
  checked_add, usize, read, advance, read_u8, read_u16, read_u32, read_uint, read_cstring,
  read_header,
}

abbrev pub one_of : Text → List Text → Bool
one_of kind kinds = any (λ k. text_eq kind k) kinds

unfoldable pub is_sequence_brand : Text → Bool
is_sequence_brand brand =
    one_of brand (codes "msf1" ∷ codes "isom" ∷ codes "mp41" ∷ codes "mp42" ∷ [])

unfoldable pub is_image_item : Text → Text → Bool
is_image_item item_type content_type =
    one_of item_type (
      codes "hvc1"
      ∷ codes "av01"
      ∷ codes "grid"
      ∷ codes "tili"
      ∷ codes "iden"
      ∷ codes "iovl"
      ∷ codes "avc1"
      ∷ codes "unci"
      ∷ codes "vvc1"
      ∷ codes "jpeg"
      ∷ codes "j2k1"
      ∷ codes "mski"
      ∷ [])
    || (text_eq item_type (codes "mime") && text_eq content_type (codes "image/jpeg"))

-- `chunks_exact(4)`, of which some is a brand of sequences.
unfoldable pub any_brand : List ℕ → Bool
any_brand (a ∷ b ∷ c ∷ d ∷ rest) =
    let others = any_brand rest in is_sequence_brand (a ∷ b ∷ c ∷ d ∷ []) || others
any_brand _ = false

-- A count of the whole file: 32 bits, and a ceiling.
unfoldable pub charge : ℕ → ℕ → ℕ → Text → Result ℕ
unfolding ◌>>=◌ checked_add
charge ceiling total added name = checked_add (2 ^ 32) total added (limit name) >>= λ sum.
    if ltb ceiling sum then err (limit name) else ok sum

module _ (bytes : List ℕ) (budget : Budget) where
  unfoldable pub parse_ftyp : Header → Walked → Result Walked
  unfolding ◌>>=◌ is_sequence_brand any_brand
  parse_ftyp header w =
      read bytes header.body_start (header.body_end - header.body_start) header.body_end >>= λ body.
      if ltb (length body) 8
      then err (container (codes "file type box is truncated"))
      else ok
          (record w { sequence_brand = is_sequence_brand (take 4 body) || any_brand (drop 8 body) })

  unfoldable pub parse_colr : Header → Walked → Result Walked
  unfolding ◌>>=◌
  parse_colr header w =
      read bytes header.body_start (header.body_end - header.body_start) header.body_end >>= λ body.
      if ltb (length body) 4
      then err (container (codes "colour information box is truncated"))
      else if one_of (take 4 body) (codes "prof" ∷ codes "rICC" ∷ []) && length body == 4
      then err (container (codes "embedded colour profile is empty"))
      else ok w

  -- The number, the type and the content type of an item.
  unfoldable pub old_entry : ℕ → ℕ → Result (ℕ × Text × Text)
  unfolding ◌>>=◌
  old_entry offset end = read_u16 bytes offset end >>= λ id.
      read_cstring bytes (offset + 2 + 2) end >>= λ name.
      read_cstring bytes name.1 end >>= λ content.
      read_cstring bytes content.1 end >>= λ encoding. ok (id, 0 ∷ 0 ∷ 0 ∷ 0 ∷ [], content.0)

  -- The content type of a `mime` item.
  unfoldable pub content_of : Text → ℕ → ℕ → Result (Text × ℕ)
  content_of item_type offset end =
      if text_eq item_type (codes "mime") then read_cstring bytes offset end else ok ([], offset)

  -- A `uri ` item carries one more text.
  unfoldable pub skip_uri : Text → ℕ → ℕ → Result (Unit {0})
  unfolding ◌>>=◌
  skip_uri item_type offset end =
      if text_eq item_type (codes "uri ")
      then (read_cstring bytes offset end >>= λ uri. ok tt)
      else ok tt

  unfoldable pub new_entry : ℕ → ℕ → ℕ → Result (ℕ × Text × Text)
  unfolding ◌>>=◌ content_of skip_uri
  new_entry version offset end =
      let width = if version == 2 then 2 else 4 in
      (if version == 2 then read_u16 bytes offset end else read_u32 bytes offset end) >>= λ id.
      read bytes (offset + width + 2) 4 end >>= λ item_type.
      read_cstring bytes (offset + width + 2 + 4) end >>= λ name.
      content_of item_type name.1 end >>= λ content.
      skip_uri item_type content.1 end >>= λ done. ok (id, item_type, content.0)

  -- The item, counted, is loaded with the metadata unless it is an image or known.
  unfoldable pub add_item : ℕ → Text → Text → Walked → Result Walked
  unfolding is_image_item
  add_item id item_type content_type w =
      if is_image_item item_type content_type && not (text_eq item_type (codes "mime"))
      then ok w
      else if any (λ other. other == id) w.metadata_items
      then ok w
      else if leb budget.max_metadata_items (length w.metadata_items)
      then err (limit (codes "metadata item count"))
      else ok (record w { metadata_items = w.metadata_items ++ (id ∷ []) })

  unfoldable pub count_item : ℕ × Text × Text → Walked → Result Walked
  unfolding ◌>>=◌ charge add_item
  count_item (id, item_type, content_type) w =
      charge budget.max_container_items w.totals.items 1 (codes "container item count") >>= λ items.
      add_item id item_type content_type (record w { totals = record w.totals { items = items } })

  unfoldable pub parse_infe : Header → Walked → Result Walked
  unfolding ◌>>=◌ old_entry new_entry count_item
  parse_infe header w = read_u8 bytes header.body_start header.body_end >>= λ version.
      (if ltb 3 version
        then err (container (codes "unsupported item info version"))
        else if leb version 1
        then old_entry (header.body_start + 4) header.body_end
        else new_entry version (header.body_start + 4) header.body_end)
      >>= λ entry. count_item entry w

  abbrev pub is_width : ℕ → Bool
  is_width n = n == 0 || (n == 4 || n == 8)

  -- The extents of an item: what they declare together, and the offset behind them.
  unfoldable pub sum_extents : ℕ → ℕ → ℕ → ℕ → ℕ → ℕ → ℕ → Result (ℕ × ℕ)
  unfolding ◌>>=◌ checked_add
  sum_extents zero index_size offset_size length_size offset end total = ok (total, offset)
  sum_extents (suc n) index_size offset_size length_size offset end total =
      advance bytes offset index_size end >>= λ o1. advance bytes o1 offset_size end >>= λ o2.
      read_uint bytes o2 length_size end >>= λ size.
      checked_add (2 ^ 64) total size (limit (codes "item extent bytes")) >>= λ sum.
      advance bytes o2 length_size end >>= λ o3.
      sum_extents n index_size offset_size length_size o3 end sum

  -- The records of an item location box.
  unfoldable pub read_records : ℕ → ℕ → ℕ → ℕ → ℕ → ℕ → ℕ → ℕ → Walked → Result Walked
  unfolding ◌>>=◌ sum_extents
  read_records zero version index_size offset_size length_size base_size offset end w = ok w
  read_records (suc n) version index_size offset_size length_size base_size offset end w =
      let o1 = offset + (if ltb version 2 then 2 else 4) in
      let o2 = o1 + (if leb 1 version then 2 else 0) + 2 in
      (if ltb version 2 then read_u16 bytes offset end else read_u32 bytes offset end) >>= λ id.
      advance bytes o2 base_size end >>= λ o3. read_u16 bytes o3 end >>= λ extent_count.
      (if ltb budget.max_item_extents extent_count
        then err (limit (codes "item extent count"))
        else sum_extents extent_count index_size offset_size length_size (o3 + 2) end 0)
      >>= λ summed.
          read_records n version index_size offset_size length_size base_size summed.1 end
            (record w { extents = w.extents ++ (record { id = id; bytes = summed.0 } ∷ []) })

  -- With the widths of the fields.
  unfoldable pub read_locations : ℕ → ℕ → ℕ → ℕ → Walked → Result Walked
  unfolding ◌>>=◌ charge read_records
  read_locations version widths offset end w =
      let offset_size = widths / 2 ^ 12 % 16 in
      let length_size = widths / 2 ^ 8 % 16 in
      let base_size = widths / 2 ^ 4 % 16 in
      let index_size = if leb 1 version then widths % 16 else 0 in
      if not (
        is_width offset_size
        && (is_width length_size && (is_width base_size && is_width index_size)))
      then err (container (codes "unsupported item location field width"))
      else ((if ltb version 2 then read_u16 bytes offset end else read_u32 bytes offset end)
          >>= λ item_count.
              charge budget.max_container_items w.totals.iloc_records item_count
                (codes "item location record count")
              >>= λ records.
                  read_records item_count version index_size offset_size length_size base_size
                    (offset + (if ltb version 2 then 2 else 4)) end
                    (record w { totals = record w.totals { iloc_records = records } }))

  unfoldable pub parse_iloc : Header → Walked → Result Walked
  unfolding ◌>>=◌ read_locations
  parse_iloc header w = read_u8 bytes header.body_start header.body_end >>= λ version.
      if ltb 2 version
      then err (container (codes "unsupported item location version"))
      else (read_u16 bytes (header.body_start + 4) header.body_end >>= λ widths.
          read_locations version widths (header.body_start + 4 + 2) header.body_end w)

  -- A loop over the children of a box: each is looked at before its header is read, and taken
  -- afterwards.
  unfoldable pub each_child :
      ℕ
      → (ℕ → Result (Unit {0}))
      → (Header → Walked → Result Walked)
      → ℕ
      → ℕ
      → Walked
      → Result Walked
  unfolding ◌>>=◌
  each_child zero look take_child offset end w = if ltb offset end then out_of_fuel else ok w
  each_child (suc fuel) look take_child offset end w =
      if ltb offset end
      then (look offset >>= λ done. read_header bytes offset end >>= λ child.
          take_child child w >>= λ v. each_child fuel look take_child child.next end v)
      else ok w

  unfoldable pub charge_references : ℕ → Walked → Result Walked
  unfolding ◌>>=◌ charge
  charge_references count w =
      charge budget.max_container_items w.totals.iref_references count (codes "reference count")
      >>= λ n. ok (record w { totals = record w.totals { iref_references = n } })

  unfoldable pub take_references : ℕ → Header → Walked → Result Walked
  unfolding ◌>>=◌ charge_references checked_add
  take_references id_size child w =
      read_u16 bytes (child.body_start + id_size) child.body_end >>= λ count.
      if count == 0
      then err (container (codes "reference list is empty"))
      else (charge_references count w >>= λ v.
          checked_add usize child.body_start (id_size + 2 + count * id_size)
            (limit (codes "reference count"))
          >>= λ expected.
              if expected == child.body_end
              then ok v
              else err (container (codes "reference list does not fill its box")))

  unfoldable pub parse_iref : Header → Walked → Result Walked
  unfolding ◌>>=◌ each_child take_references
  parse_iref header w = read bytes header.body_start 4 header.body_end >>= λ prefix.
      let version = big_endian (take 1 prefix) 0 in
      if ltb 1 version
      then err (container (codes "unsupported reference version"))
      else each_child (header.body_end - header.body_start) (λ _. ok tt)
          (take_references (if version == 0 then 2 else 4)) (header.body_start + 4) header.body_end
          w

  -- The size that a track reference list declares.
  unfoldable pub look_size : ℕ → ℕ → Result (Unit {0})
  unfolding ◌>>=◌
  look_size end offset = read_u32 bytes offset end >>= λ declared.
      if declared == 0
      then err (container (codes "track reference list has an unspecified size"))
      else ok tt

  unfoldable pub take_list : Header → Walked → Result Walked
  unfolding ◌>>=◌ charge_references
  take_list child w =
      let size = child.body_end - child.body_start in
      if ltb size 4 || not (size % 4 == 0)
      then err (container (codes "track reference list has an invalid size"))
      else if leb (2 ^ 32) (size / 4)
      then err (limit (codes "reference count"))
      else charge_references (size / 4) w

  unfoldable pub parse_tref : Header → Walked → Result Walked
  unfolding each_child look_size take_list
  parse_tref header w =
      each_child (header.body_end - header.body_start) (look_size header.body_end) take_list
        header.body_start header.body_end w

  -- The entries of an association box.
  unfoldable pub read_associations : ℕ → ℕ → Bool → ℕ → ℕ → Walked → Result Walked
  unfolding ◌>>=◌ charge
  read_associations zero version is_wide offset end w = ok w
  read_associations (suc n) version is_wide offset end w =
      advance bytes offset (if ltb version 1 then 2 else 4) end >>= λ o1.
      read_u8 bytes o1 end >>= λ associations.
      charge budget.max_container_associations w.totals.ipma_associations associations
        (codes "property association count")
      >>= λ total. advance bytes (o1 + 1) (associations * (if is_wide then 2 else 1)) end >>= λ o2.
          read_associations n version is_wide o2 end
            (record w { totals = record w.totals { ipma_associations = total } })

  unfoldable pub parse_ipma : Header → Walked → Result Walked
  unfolding ◌>>=◌ charge read_associations
  parse_ipma header w = read_u8 bytes header.body_start header.body_end >>= λ version.
      if ltb 1 version
      then err (container (codes "unsupported property association version"))
      else (read_u8 bytes (header.body_start + 3) header.body_end >>= λ flags.
          read_u32 bytes (header.body_start + 4) header.body_end >>= λ entry_count.
          charge budget.max_container_items w.totals.ipma_entries entry_count
            (codes "property association count")
          >>= λ entries.
              read_associations entry_count version (not (flags % 2 == 0))
                (header.body_start + 4 + 4) header.body_end
                (record w { totals = record w.totals { ipma_entries = entries } }))
