-- ===== src/Container.antt =====
-- src/dynamic_wallpaper/container.rs: the check of a HEIF container before it is parsed. The file
-- is a list of bytes. Offsets are `usize` of 64 bits; a sum of two numbers from within the file is
-- below 2 ^ 64, since no slice is longer than 2 ^ 63 bytes, and only `checked_add` looks for more.
pub mod Boxes
pub mod Walk
pub mod Readers
pub mod Ceilings
pub mod Records
pub mod Tree
pub mod Counted
pub mod Bounds
use genkan.Prelude.{
  ℕ, zero, suc, ◌+◌, ◌-◌, ◌*◌, ◌/◌, ◌%◌, ◌^◌, Bool, true, false, ◌&&◌, ◌||◌, not, Option, none,
  some, List, [], ◌∷◌, Text, codes, text_eq, ◌==◌, ltb, leb, length, take, drop, position,
  if◌then◌else◌, any,
}

-- `heic::Error`, of the variants used here.
pub data Error : Type 0 where
  container limit : Text → Error

-- A result, or that a loop went on longer than the fuel it was given.
pub data Result {ℓ} (A : Type ℓ) : Type ℓ where
  ok : A → Result A
  err : Error → Result A
  out_of_fuel : Result A

-- `?`.
infixl 5 ◌>>=◌
unfoldable pub ◌>>=◌ {ℓ κ} : {A : Type ℓ} {B : Type κ} → Result A → (A → Result B) → Result B
ok a >>= k = k a
err e >>= k = err e
out_of_fuel >>= k = out_of_fuel

pub record Budget : Type 0 where
  pub max_container_items : ℕ
  pub max_container_associations : ℕ
  pub max_metadata_items : ℕ
  pub max_metadata_bytes : ℕ
  pub max_container_boxes : ℕ
  pub max_container_depth : ℕ
  pub max_item_extents : ℕ

pub record Totals : Type 0 where
  pub items : ℕ
  pub iloc_records : ℕ
  pub iref_references : ℕ
  pub ipma_entries : ℕ
  pub ipma_associations : ℕ

pub record Extent : Type 0 where
  pub id : ℕ
  pub bytes : ℕ

pub record Header : Type 0 where
  pub kind : Text
  pub body_start : ℕ
  pub body_end : ℕ
  pub next : ℕ

-- The fields of `Walk` that change.
pub record Walked : Type 0 where
  pub totals : Totals
  pub boxes : ℕ
  pub metadata_items : List ℕ
  pub extents : List Extent
  pub saw_meta : Bool
  pub saw_mini : Bool
  pub sequence_brand : Bool

abbrev pub truncated : Error
truncated = container (codes "box is truncated")

abbrev pub overflow : Error
overflow = container (codes "box offset overflow")

abbrev pub when {ℓ} : {A : Type ℓ} → Bool → Error → Result A → Result A
when true e r = r
when false e r = err e

-- `checked_add` below a bound, with the error that follows.
unfoldable pub checked_add : ℕ → ℕ → ℕ → Error → Result ℕ
checked_add bound a b error = if ltb (a + b) bound then ok (a + b) else err error

abbrev pub usize : ℕ
usize = 2 ^ 64

-- Numbers of several bytes, the highest first.
unfoldable pub big_endian : List ℕ → ℕ → ℕ
big_endian [] n = n
big_endian (b ∷ bs) n = big_endian bs (n * 256 + b)

module _ (bytes : List ℕ) where
  unfoldable pub read : ℕ → ℕ → ℕ → Result (List ℕ)
  unfolding ◌>>=◌ checked_add
  read offset count end = checked_add usize offset count overflow >>= λ stop.
      if ltb end stop || ltb (length bytes) stop
      then err truncated
      else ok (take count (drop offset bytes))

  unfoldable pub advance : ℕ → ℕ → ℕ → Result ℕ
  unfolding ◌>>=◌ checked_add
  advance offset count end = checked_add usize offset count overflow >>= λ stop.
      if ltb end stop then err truncated else ok stop

  -- `read_u8`, `read_u16` and `read_u32`, by their number of bytes.
  unfoldable pub read_number : ℕ → ℕ → ℕ → Result ℕ
  unfolding ◌>>=◌ read big_endian
  read_number width offset end = read offset width end >>= λ bs. ok (big_endian bs 0)

  unfoldable pub read_u8 : ℕ → ℕ → Result ℕ
  unfolding read_number
  read_u8 offset end = read_number 1 offset end

  unfoldable pub read_u16 : ℕ → ℕ → Result ℕ
  unfolding read_number
  read_u16 offset end = read_number 2 offset end

  unfoldable pub read_u32 : ℕ → ℕ → Result ℕ
  unfolding read_number
  read_u32 offset end = read_number 4 offset end

  unfoldable pub read_uint : ℕ → ℕ → ℕ → Result ℕ
  unfolding ◌>>=◌ read_u32
  read_uint offset width end =
      if width == 0
      then ok 0
      else if width == 4
      then read_u32 offset end
      else if width == 8
      then (read_u32 offset end >>= λ high.
          read_u32 (offset + 4) end >>= λ low. ok (high * 2 ^ 32 + low))
      else err (container (codes "unsupported integer width"))

  abbrev but_last : List ℕ → List ℕ
  but_last [] = []
  but_last (b ∷ []) = []
  but_last (b ∷ c ∷ bs) = b ∷ but_last (c ∷ bs)

  -- By the place of the terminating zero: the text, and the offset behind it.
  abbrev split_text : Option ℕ → List ℕ → ℕ → ℕ → List ℕ × ℕ
  split_text (some n) rest offset end = (take n rest, offset + n + 1)
  split_text none rest offset end = (but_last rest, end)

  unfoldable pub read_cstring : ℕ → ℕ → Result (List ℕ × ℕ)
  read_cstring offset end =
      let rest = take (end - offset) (drop offset bytes) in
      if ltb end offset || ltb (length bytes) end
      then err truncated
      else ok (split_text (position (λ b. b == 0) rest) rest offset end)

  -- The length of the box and of its header, by the size that is written.
  unfoldable pub box_lengths : ℕ → ℕ → ℕ → Result (ℕ × ℕ)
  unfolding ◌>>=◌ checked_add read_number
  box_lengths size offset bound =
      if size == 0
      then ok (bound - offset, 8)
      else if size == 1
      then (checked_add usize offset 8 overflow >>= λ start.
          read_number 8 start bound >>= λ large. ok (large, 16))
      else ok (size, 8)

  -- The header, once its lengths are known.
  unfoldable pub header_of : Text → ℕ → ℕ → ℕ × ℕ → Result Header
  unfolding ◌>>=◌ checked_add
  header_of kind offset bound (box_length, short) =
      let header_length = if text_eq kind (codes "uuid") then short + 16 else short in
      if ltb box_length header_length
      then err (container (codes "box is smaller than its header"))
      else checked_add usize offset header_length overflow >>= λ body_start.
          checked_add usize offset box_length overflow >>= λ body_end.
          if ltb bound body_end
          then err (container (codes "box extends past its parent"))
          else ok (record {
            kind = kind;
            body_start = body_start;
            body_end = body_end;
            next = body_end;
          })

  unfoldable pub read_header : ℕ → ℕ → Result Header
  unfolding ◌>>=◌ read big_endian box_lengths header_of
  read_header offset bound = read offset 8 bound >>= λ header.
      box_lengths (big_endian (take 4 header) 0) offset bound >>= λ lengths.
      header_of (drop 4 header) offset bound lengths
