-- ===== src/Container/Tree.antt =====
-- The boxes of a file as src/dynamic_wallpaper/container.rs reads them, those inside of others
-- included.
use genkan.Prelude.{
  ℕ, suc, ◌+◌, ◌≤◌, true, List, ◌==◌, ◌≡◌, subst, arith, if◌then◌else◌, Bool, false, Option, none,
  some, ◌⊎◌, inl, inr,
}
use genkan.Container.{ok, read_u8, read_u32, read_header, Header}
use genkan.Container.Walk.{
  Kind, meta, iinf, infe, iloc, iref, ipma, stsd, dref, urim, tref, ftyp, colr, mini, nested,
  visual, opaque, kind_of,
}

-- The kinds of boxes whose children are not walked.
abbrev pub is_leaf : Kind → Bool
is_leaf infe = true
is_leaf iloc = true
is_leaf iref = true
is_leaf ipma = true
is_leaf tref = true
is_leaf ftyp = true
is_leaf colr = true
is_leaf mini = true
is_leaf opaque = true
is_leaf _ = false

abbrev pub one_more : Option ℕ → Option ℕ
one_more none = none
one_more (some n) = some (suc n)

module _ (bytes : List ℕ) where
  -- Where the children of a box start, and how many there are, or that they fill the box.
  abbrev pub IsBody : Kind → Header → Option ℕ → ℕ → Type 0
  IsBody meta header o start = (o ≡ none) × (start ≡ header.body_start + 4)
  IsBody iinf header o start =
      (o ≡ none)
      × ((version : ℕ) × (read_u8 bytes header.body_start header.body_end ≡ ok version)
          × (start ≡ header.body_start + 4 + (if version == 0 then 2 else 4)))
  IsBody stsd header o start =
      (start ≡ header.body_start + 8)
      × ((count : ℕ) × (read_u32 bytes (header.body_start + 4) header.body_end ≡ ok count)
          × (o ≡ some count))
  IsBody dref header o start = (o ≡ none) × (start ≡ header.body_start + 8)
  IsBody urim header o start = (o ≡ none) × (start ≡ header.body_start + 8)
  IsBody nested header o start = (o ≡ none) × (start ≡ header.body_start)
  IsBody visual header o start = (o ≡ none) × (start ≡ header.body_start + 78)
  IsBody _ header o start = ⊥

  -- Boxes stand one behind another between two offsets, to the end or this many of them; with those
  -- inside of them they are `n` boxes.
  pub data Boxes : Option ℕ → ℕ → ℕ → ℕ → Type 0 where
    to_end : (offset end : ℕ) → end ≤ offset → Boxes none offset end 0
    all_there : (offset end : ℕ) → Boxes (some 0) offset end 0
    leaf :
        (o : Option ℕ) (header : Header) (offset end n : ℕ)
        → read_header bytes offset end ≡ ok header
        → is_leaf (kind_of header.kind) ≡ true
        → Boxes o header.next end n
        → Boxes (one_more o) offset end (suc n)
    parent :
        (o inner : Option ℕ) (header : Header) (offset end start m n : ℕ)
        → read_header bytes offset end ≡ ok header
        → IsBody (kind_of header.kind) header inner start
        → Boxes inner start header.body_end m
        → Boxes o header.next end n
        → Boxes (one_more o) offset end (suc (m + n))

  -- The boxes inside of a box.
  abbrev pub Inside : Kind → Header → ℕ → Type 0
  Inside kind header m =
      ((is_leaf kind ≡ true) × (m ≡ 0))
      ⊎ ((inner : Option ℕ) × (start : ℕ) × IsBody kind header inner start
          × Boxes inner start header.body_end m)

  pub node :
      (o : Option ℕ) (header : Header) (offset end m n : ℕ)
      → read_header bytes offset end ≡ ok header
      → Inside (kind_of header.kind) header m
      → Boxes o header.next end n
      → Boxes (one_more o) offset end (suc (m + n))
  node o header offset end m n e (inl (l, z)) t =
      subst (λ x. Boxes (one_more o) offset end (suc x)) (omega (arith, z))
        (leaf o header offset end n e l t)
  node o header offset end m n e (inr (inner, start, b, i)) t =
      parent o inner header offset end start m n e b i t
