-- ===== src/Container/Bounds.antt =====
-- The check of src/dynamic_wallpaper/container.rs ends, and what it accepts is within its ceilings.
use genkan.Prelude.{
  ℕ, ◌+◌, ◌^◌, ◌≤◌, true, ◌&&◌, ◌||◌, not, List, [], ◌∷◌, codes, ltb, length, ◌≡◌, ◌≢◌, subst,
  arith, none, sym,
}
use genkan.Container.{limit, ok, out_of_fuel, Budget, Extent, Walked}
use genkan.Container.Walk.{
  largest, sum_metadata, check_metadata_bytes, walk_file, finish, preflight,
}
use genkan.Container.Readers.{
  Ensures, value, error, bind-Ensures, if-Ensures, checked_add-Ensures, known-Ensures, map-Ensures,
  ends,
}
use genkan.Container.Ceilings.{IsWithin}
use genkan.Container.Tree.{Boxes}
use genkan.Container.Counted.{Counted, file-Ensures}

-- The bytes that the items load together, each with its largest record.
abbrev pub loaded_bytes : List ℕ → List Extent → ℕ
loaded_bytes [] es = 0
loaded_bytes (id ∷ ids) es = largest id es 0 + loaded_bytes ids es

-- What a file that is accepted declares: no count exceeds its ceiling, nor do the bytes loaded with
-- the metadata, and there is a box of metadata, a minimised one, or a brand of sequences.
pub record IsAccepted (bytes : List ℕ) (budget : Budget) (w : Walked) : Type 0 where
  pub boxes : Boxes bytes none 0 (length bytes) w.boxes
  pub within : IsWithin budget w.boxes w
  pub metadata_bytes : loaded_bytes w.metadata_items w.extents ≤ budget.max_metadata_bytes
  pub shape : (w.saw_meta || (w.saw_mini || w.sequence_brand)) ≡ true

module _ (bytes : List ℕ) (budget : Budget) where
  sum-Ensures :
      (ids : List ℕ) (es : List Extent) (total : ℕ)
      → Ensures (λ n. n ≡ total + loaded_bytes ids es) (sum_metadata bytes budget ids es total)
  unfolding sum_metadata
  sum-Ensures [] es total = value _ (omega arith)
  sum-Ensures (id ∷ ids) es total =
      bind-Ensures _ _ _ _
        (checked_add-Ensures (2 ^ 64) total (largest id es 0)
          (limit (codes "metadata extent bytes")))
        (λ sum h.
          subst (λ x. Ensures (λ n. n ≡ x) (sum_metadata bytes budget ids es sum))
            (omega (arith, h)) (sum-Ensures ids es sum))

  metadata-Ensures :
      (w : Walked)
      → Ensures
          (λ _. loaded_bytes w.metadata_items w.extents ≤ budget.max_metadata_bytes)
          (check_metadata_bytes bytes budget w)
  unfolding check_metadata_bytes
  metadata-Ensures w = bind-Ensures _ _ _ _ (sum-Ensures w.metadata_items w.extents 0) (λ total h.
      if-Ensures _ (ltb budget.max_metadata_bytes total) _ _ (λ _. error _)
        (λ e. value _ (ground (arith, h))))

  finish-Ensures :
      (w : Walked)
      → Counted bytes budget none 0 (length bytes) 0 w
      → Ensures (λ _. IsAccepted bytes budget w) (finish bytes budget w)
  unfolding finish
  finish-Ensures w (n, t, h) =
      if-Ensures _ (not w.saw_meta && (not w.saw_mini && not w.sequence_brand)) _ _ (λ _. error _)
        (λ e.
          map-Ensures _ _ _
            (λ _ k. record {
              boxes =
                  subst (λ x. Boxes bytes none 0 (length bytes) x) (omega (arith, h.counted_boxes))
                    t;
              within = subst (λ x. IsWithin budget x w) (sym h.counted_boxes) h;
              metadata_bytes = k;
              shape = ground arith;
            })
            (metadata-Ensures w))

  preflight-Ensures :
      Ensures
        (λ _. (w : Walked) × (walk_file bytes budget ≡ ok w) × IsAccepted bytes budget w)
        (preflight bytes budget)
  unfolding preflight
  preflight-Ensures =
      known-Ensures _ _ _ _ (file-Ensures bytes budget)
        (λ w e h. map-Ensures _ _ _ (λ _ k. (w, e, k)) (finish-Ensures w h))

  -- The check of any file ends: the fuel it is given, one more than the length of the file, does
  -- not run out.
  pub preflight_ends : preflight bytes budget ≢ out_of_fuel
  preflight_ends = ends _ _ preflight-Ensures
