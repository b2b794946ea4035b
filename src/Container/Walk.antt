-- ===== src/Container/Walk.antt =====
-- The walk over all boxes in src/dynamic_wallpaper/container.rs. The boxes that have children call
-- the walk, which is handed to them; `scan` is that recursion, on fuel. The length of the file is
-- fuel enough.
use genkan.Prelude.{
  ℕ, zero, suc, ◌+◌, ◌^◌, true, false, ◌&&◌, not, List, [], ◌∷◌, Text, codes, text_eq, ◌==◌, ltb,
  leb, length, take, drop, if◌then◌else◌, max,
}
use genkan.Container.{
  container, limit, Result, ok, err, out_of_fuel, ◌>>=◌, big_endian, Budget, Extent, Header, Walked,
  truncated, checked_add, read, read_u8, read_u16, read_u32, read_header,
}
use genkan.Container.Boxes.{
  one_of, charge, parse_ftyp, parse_colr, parse_infe, parse_iloc, parse_iref, parse_tref,
  parse_ipma,
}

-- The types of boxes that are told apart.
pub data Kind : Type 0 where
  meta iinf infe iloc iref ipma stsd dref urim tref ftyp colr mini nested visual opaque : Kind

-- `is_container`.
abbrev container_kinds : List Text
container_kinds =
    codes "iprp"
    ∷ codes "ipco"
    ∷ codes "dinf"
    ∷ codes "grpl"
    ∷ codes "moov"
    ∷ codes "trak"
    ∷ codes "mdia"
    ∷ codes "minf"
    ∷ codes "stbl"
    ∷ codes "edts"
    ∷ codes "j2kH"
    ∷ []

-- `is_visual_sample_entry`.
abbrev visual_kinds : List Text
visual_kinds =
    codes "hvc1" ∷ codes "av01" ∷ codes "vvc1" ∷ codes "avc1" ∷ codes "mjpg" ∷ codes "j2ki" ∷ []

unfoldable pub kind_of : Text → Kind
kind_of k =
    if text_eq k (codes "meta")
    then meta
    else if text_eq k (codes "iinf")
    then iinf
    else if text_eq k (codes "infe")
    then infe
    else if text_eq k (codes "iloc")
    then iloc
    else if text_eq k (codes "iref")
    then iref
    else if text_eq k (codes "ipma")
    then ipma
    else if text_eq k (codes "stsd")
    then stsd
    else if text_eq k (codes "dref")
    then dref
    else if text_eq k (codes "urim")
    then urim
    else if text_eq k (codes "tref")
    then tref
    else if text_eq k (codes "ftyp")
    then ftyp
    else if text_eq k (codes "colr")
    then colr
    else if text_eq k (codes "mini")
    then mini
    else if one_of k container_kinds
    then nested
    else if one_of k visual_kinds
    then visual
    else opaque

-- How a loop over children ends: at the end of the box; there, with as many as declared; or after a
-- number of them.
pub data Loop : Type 0 where
  every : Loop
  counted : ℕ → ℕ → Loop
  listed : ℕ → Loop

-- A loop over the boxes from an offset to an end, at a depth.
abbrev pub Scan : Type 0
Scan = Loop → ℕ → ℕ → ℕ → Walked → Result Walked

-- `walk`.
unfoldable pub walk : Scan → ℕ → ℕ → ℕ → Walked → Result Walked
walk scan start end depth w = if ltb end start then err truncated else scan every start end depth w

abbrev pub visual_sample_entry_prefix : ℕ
visual_sample_entry_prefix = 78

abbrev pub visual_sample_entry_name_length : ℕ
visual_sample_entry_name_length = 42

-- The largest record of an item.
abbrev pub largest : ℕ → List Extent → ℕ → ℕ
largest id [] n = n
largest id (e ∷ es) n = largest id es (if e.id == id then max n e.bytes else n)

module _ (bytes : List ℕ) (budget : Budget) where
  unfoldable pub walk_visual_sample_entry : Scan → Header → ℕ → Walked → Result Walked
  unfolding ◌>>=◌ walk big_endian
  walk_visual_sample_entry scan header depth w =
      read bytes header.body_start visual_sample_entry_prefix header.body_end >>= λ prefix.
      if ltb 31 (big_endian (take 1 (drop visual_sample_entry_name_length prefix)) 0)
      then err (container (codes "sample entry compressor name is too long"))
      else walk scan (header.body_start + visual_sample_entry_prefix) header.body_end (depth + 1) w

  unfoldable pub parse_iinf : Scan → Header → ℕ → Walked → Result Walked
  unfolding ◌>>=◌
  parse_iinf scan header depth w = read_u8 bytes header.body_start header.body_end >>= λ version.
      let width = if version == 0 then 2 else 4 in
      (if version == 0
        then read_u16 bytes (header.body_start + 4) header.body_end
        else read_u32 bytes (header.body_start + 4) header.body_end)
      >>= λ declared.
          scan (counted 0 declared) (header.body_start + 4 + width) header.body_end (depth + 1) w

  unfoldable pub parse_stsd : Scan → Header → ℕ → Walked → Result Walked
  unfolding ◌>>=◌
  parse_stsd scan header depth w = read_u8 bytes header.body_start header.body_end >>= λ version.
      if not (version == 0)
      then err (container (codes "unsupported sample description version"))
      else (read_u32 bytes (header.body_start + 4) header.body_end >>= λ count.
          scan (listed count) (header.body_start + 4 + 4) header.body_end (depth + 1) w)

  -- The `match` of `visit`.
  unfoldable pub parse_box : Scan → Kind → Header → ℕ → Walked → Result Walked
  unfolding walk parse_iinf parse_stsd walk_visual_sample_entry parse_infe parse_iloc parse_iref
      parse_ipma parse_tref parse_ftyp parse_colr
  parse_box scan meta header depth w =
      walk scan (header.body_start + 4) header.body_end (depth + 1) (record w { saw_meta = true })
  parse_box scan iinf header depth w = parse_iinf scan header depth w
  parse_box scan infe header depth w = parse_infe bytes budget header w
  parse_box scan iloc header depth w = parse_iloc bytes budget header w
  parse_box scan iref header depth w = parse_iref bytes budget header w
  parse_box scan ipma header depth w = parse_ipma bytes budget header w
  parse_box scan stsd header depth w = parse_stsd scan header depth w
  parse_box scan dref header depth w =
      walk scan (header.body_start + 8) header.body_end (depth + 1) w
  parse_box scan urim header depth w =
      walk scan (header.body_start + 8) header.body_end (depth + 1) w
  parse_box scan tref header depth w = parse_tref bytes budget header w
  parse_box scan ftyp header depth w = parse_ftyp bytes budget header w
  parse_box scan colr header depth w = parse_colr bytes budget header w
  parse_box scan mini header depth w = ok (record w { saw_mini = true })
  parse_box scan nested header depth w = walk scan header.body_start header.body_end (depth + 1) w
  parse_box scan visual header depth w = walk_visual_sample_entry scan header depth w
  parse_box scan opaque header depth w = ok w

  unfoldable pub visit : Scan → Header → ℕ → Walked → Result Walked
  unfolding ◌>>=◌ charge kind_of parse_box
  visit scan header depth w =
      if ltb budget.max_container_depth depth
      then err (limit (codes "box nesting depth"))
      else (charge budget.max_container_boxes w.boxes 1 (codes "box count") >>= λ boxes.
          parse_box scan (kind_of header.kind) header depth (record w { boxes = boxes }))

  -- One box, and the rest of the loop.
  unfoldable pub next_box : Scan → Loop → ℕ → ℕ → ℕ → Walked → Result Walked
  unfolding ◌>>=◌ visit
  next_box scan loop offset end depth w = read_header bytes offset end >>= λ child.
      visit scan child depth w >>= λ v. scan loop child.next end depth v

  -- In `parse_iinf`, the count before the next box.
  unfoldable pub count_box : Scan → ℕ → ℕ → ℕ → ℕ → ℕ → Walked → Result Walked
  unfolding ◌>>=◌ visit checked_add
  count_box scan seen declared offset end depth w = read_header bytes offset end >>= λ child.
      visit scan child depth w >>= λ v.
      checked_add (2 ^ 32) seen 1 (limit (codes "container item count")) >>= λ n.
      scan (counted n declared) child.next end depth v

  unfoldable pub scan : ℕ → Scan
  unfolding next_box count_box
  scan zero loop offset end depth w = out_of_fuel
  scan (suc fuel) every offset end depth w =
      if ltb offset end then next_box (scan fuel) every offset end depth w else ok w
  scan (suc fuel) (counted seen declared) offset end depth w =
      if ltb offset end
      then count_box (scan fuel) seen declared offset end depth w
      else if seen == declared
      then ok w
      else err (container (codes "item information count does not match its entries"))
  scan (suc fuel) (listed zero) offset end depth w = ok w
  scan (suc fuel) (listed (suc n)) offset end depth w =
      if leb end offset
      then err (container (codes "sample description is truncated"))
      else next_box (scan fuel) (listed n) offset end depth w

  -- The sum of the largest records of the items.
  unfoldable pub sum_metadata : List ℕ → List Extent → ℕ → Result ℕ
  unfolding ◌>>=◌ checked_add
  sum_metadata [] extents total = ok total
  sum_metadata (id ∷ ids) extents total =
      checked_add (2 ^ 64) total (largest id extents 0) (limit (codes "metadata extent bytes"))
      >>= λ sum. sum_metadata ids extents sum

  unfoldable pub check_metadata_bytes : Walked → Result (Unit {0})
  unfolding ◌>>=◌ sum_metadata
  check_metadata_bytes w = sum_metadata w.metadata_items w.extents 0 >>= λ total.
      if ltb budget.max_metadata_bytes total
      then err (limit (codes "metadata extent bytes"))
      else ok tt

  abbrev pub fresh : Walked
  fresh = record {
    totals = record {
      items = 0;
      iloc_records = 0;
      iref_references = 0;
      ipma_entries = 0;
      ipma_associations = 0;
    };
    boxes = 0;
    metadata_items = [];
    extents = [];
    saw_meta = false;
    saw_mini = false;
    sequence_brand = false;
  }

  -- The walk over the whole file.
  unfoldable pub walk_file : Result Walked
  unfolding walk scan
  walk_file = walk (scan (suc (length bytes))) 0 (length bytes) 0 fresh

  unfoldable pub finish : Walked → Result (Unit {0})
  unfolding check_metadata_bytes
  finish w =
      if not w.saw_meta && (not w.saw_mini && not w.sequence_brand)
      then err (container (codes "no metadata box"))
      else check_metadata_bytes w

  unfoldable pub preflight : Result (Unit {0})
  unfolding ◌>>=◌ walk_file finish
  preflight = walk_file >>= λ w. finish w
