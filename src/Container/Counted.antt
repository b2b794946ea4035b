-- ===== src/Container/Counted.antt =====
-- The walk of src/dynamic_wallpaper/container.rs ends, and counts every box once.
use genkan.Prelude.{
  ℕ, zero, suc, ◌+◌, ◌^◌, ◌≤◌, ◌<◌, true, not, List, codes, ◌==◌, ltb, leb, length, take, drop, ◌≡◌,
  refl, subst, arith, if◌then◌else◌, Option, none, some, inl, inr,
}
use genkan.Container.{limit, ok, Result, read_header, big_endian, Budget, Header, Walked}
use genkan.Container.Walk.{
  Kind, meta, iinf, infe, iloc, iref, ipma, stsd, dref, urim, tref, ftyp, colr, mini, nested,
  visual, opaque, Loop, every, counted, listed, Scan, walk, walk_visual_sample_entry,
  visual_sample_entry_prefix, visual_sample_entry_name_length, parse_iinf, parse_stsd, parse_box,
  visit, kind_of, next_box, count_box, scan, fresh, walk_file,
}
use genkan.Container.Readers.{
  Ensures, value, error, Any, bind-Ensures, if-Ensures, checked_add-Ensures, known-Ensures,
  map-Ensures, read-Ensures, u8-Ensures, u32-Ensures, read_header-Ensures,
}
use genkan.Container.Ceilings.{
  IsWithin, charge-Ensures, id-Ensures, ftyp-Ensures, colr-Ensures, infe-Ensures,
}
use genkan.Container.Records.{iloc-Ensures, iref-Ensures, tref-Ensures, ipma-Ensures}
use genkan.Container.Tree.{is_leaf, one_more, IsBody, Boxes, to_end, all_there, Inside, node}

abbrev extent_of : Loop → Option ℕ
extent_of every = none
extent_of (counted seen declared) = none
extent_of (listed n) = some n

module _ (bytes : List ℕ) (budget : Budget) where
  -- The boxes from an offset on were counted, and the ceilings hold.
  abbrev pub Counted : Option ℕ → ℕ → ℕ → ℕ → Walked → Type 0
  Counted o offset end before v =
      (n : ℕ) × Boxes bytes o offset end n × IsWithin budget (before + n) v

  abbrev CountedInside : Kind → Header → ℕ → Walked → Type 0
  CountedInside kind header before v =
      (m : ℕ) × Inside bytes kind header m × IsWithin budget (before + m) v

  -- The scan ends, having counted its boxes, where the fuel exceeds the bytes that are left.
  abbrev IsEnough : ℕ → Scan → Type 0
  IsEnough f s =
      (loop : Loop) (offset end depth before : ℕ) (w : Walked)
      → end < offset + f
      → IsWithin budget before w
      → Ensures (Counted (extent_of loop) offset end before) (s loop offset end depth w)

  childless :
      (kind : Kind) (header : Header) (before : ℕ) (r : Result Walked)
      → is_leaf kind ≡ true
      → Ensures (IsWithin budget before) r
      → Ensures (CountedInside kind header before) r
  childless kind header before r l h =
      map-Ensures _ _ _
        (λ v k. (0, inl (l, refl), subst (λ x. IsWithin budget x v) (omega arith) k)) h

  inside :
      (kind : Kind) (header : Header) (o : Option ℕ) (start before : ℕ) (r : Result Walked)
      → IsBody bytes kind header o start
      → Ensures (Counted o start header.body_end before) r
      → Ensures (CountedInside kind header before) r
  inside kind header o start before r b h =
      map-Ensures _ _ _ (λ v (n, t, k). (n, inr (o, start, b, t), k)) h

  module _ (f : ℕ) (s : Scan) (enough : IsEnough f s) where
    walk-Ensures :
        (start end depth before : ℕ) (w : Walked)
        → end < start + f
        → IsWithin budget before w
        → Ensures (Counted none start end before) (walk s start end depth w)
    unfolding walk
    walk-Ensures start end depth before w l h =
        if-Ensures _ (ltb end start) _ _ (λ _. error _)
          (λ _. enough every start end depth before w l h)

    module _ (header : Header) (depth before : ℕ) (w : Walked)
        (room : header.body_end < header.body_start + f) (h : IsWithin budget before w)
        (counted_box : w.totals.items < w.boxes) where
      visual-Ensures :
          Ensures
            (CountedInside visual header before)
            (walk_visual_sample_entry bytes budget s header depth w)
      unfolding walk_visual_sample_entry
      visual-Ensures =
          bind-Ensures Any _ _ _
            (read-Ensures bytes header.body_start visual_sample_entry_prefix header.body_end)
            (λ prefix k.
              if-Ensures _
                (ltb 31 (big_endian (take 1 (drop visual_sample_entry_name_length prefix)) 0)) _ _
                (λ _. error _)
                (λ _.
                  inside visual header none _ before _ (refl, refl)
                    (walk-Ensures _ _ _ before w (omega (arith, room)) h)))

      iinf-Ensures :
          Ensures (CountedInside iinf header before) (parse_iinf bytes budget s header depth w)
      unfolding parse_iinf
      iinf-Ensures =
          known-Ensures Any _ _ _ (u8-Ensures bytes header.body_start header.body_end)
            (λ version e k.
              bind-Ensures Any _ _ _
                (id-Ensures bytes budget before (version == 0) (header.body_start + 4)
                  header.body_end)
                (λ declared k.
                  inside iinf header none _ before _ (refl, (version, e, refl))
                    (enough (counted 0 declared)
                      (header.body_start + 4 + (if version == 0 then 2 else 4)) header.body_end
                      (depth + 1) before w (omega (arith, room)) h)))

      stsd-Ensures :
          Ensures (CountedInside stsd header before) (parse_stsd bytes budget s header depth w)
      unfolding parse_stsd
      stsd-Ensures =
          bind-Ensures Any _ _ _ (u8-Ensures bytes header.body_start header.body_end) (λ version k.
            if-Ensures _ (not (version == 0)) _ _ (λ _. error _)
              (λ _.
                known-Ensures Any _ _ _ (u32-Ensures bytes (header.body_start + 4) header.body_end)
                  (λ count e k.
                    inside stsd header (some count) (header.body_start + 4 + 4) before _
                      (omega arith, (count, e, refl))
                      (enough (listed count) _ _ _ before w (omega (arith, room)) h))))

      box-Ensures :
          (kind : Kind)
          → Ensures
              (CountedInside kind header before)
              (parse_box bytes budget s kind header depth w)
      unfolding parse_box
      box-Ensures meta =
          inside meta header none (header.body_start + 4) before _ (refl, refl)
            (walk-Ensures (header.body_start + 4) header.body_end (depth + 1) before
              (record w { saw_meta = true }) (omega (arith, room)) (ground arith))
      box-Ensures iinf = iinf-Ensures
      box-Ensures infe =
          childless infe header before _ refl
            (infe-Ensures bytes budget before header w h counted_box)
      box-Ensures iloc =
          childless iloc header before _ refl (iloc-Ensures bytes budget before header w h)
      box-Ensures iref =
          childless iref header before _ refl (iref-Ensures bytes budget before header w h)
      box-Ensures ipma =
          childless ipma header before _ refl (ipma-Ensures bytes budget before header w h)
      box-Ensures stsd = stsd-Ensures
      box-Ensures dref =
          inside dref header none (header.body_start + 8) before _ (refl, refl)
            (walk-Ensures _ _ _ before w (omega (arith, room)) h)
      box-Ensures urim =
          inside urim header none (header.body_start + 8) before _ (refl, refl)
            (walk-Ensures _ _ _ before w (omega (arith, room)) h)
      box-Ensures tref =
          childless tref header before _ refl (tref-Ensures bytes budget before header w h)
      box-Ensures ftyp =
          childless ftyp header before _ refl (ftyp-Ensures bytes budget before header w h)
      box-Ensures colr =
          childless colr header before _ refl (colr-Ensures bytes budget before header w h)
      box-Ensures mini = childless mini header before _ refl (value _ (ground arith))
      box-Ensures nested =
          inside nested header none header.body_start before _ (refl, refl)
            (walk-Ensures _ _ _ before w room h)
      box-Ensures visual = visual-Ensures
      box-Ensures opaque = childless opaque header before _ refl (value _ h)

    visit-Ensures :
        (header : Header) (depth before : ℕ) (w : Walked)
        → header.body_end < header.body_start + f
        → IsWithin budget before w
        → Ensures
            (CountedInside (kind_of header.kind) header (before + 1))
            (visit bytes budget s header depth w)
    unfolding visit
    visit-Ensures header depth before w room h =
        if-Ensures _ (ltb budget.max_container_depth depth) _ _ (λ _. error _)
          (λ _.
            bind-Ensures _ _ _ _
              (charge-Ensures budget.max_container_boxes w.boxes 1 (codes "box count"))
              (λ boxes k.
                box-Ensures header depth (before + 1) (record w { boxes = boxes }) room
                  (ground arith) (omega (arith, k.1, h.visited)) (kind_of header.kind)))

    -- A box, and then the boxes behind it.
    join :
        (o : Option ℕ) (child : Header) (offset end before m : ℕ) (r : Result Walked)
        → read_header bytes offset end ≡ ok child
        → Inside bytes (kind_of child.kind) child m
        → Ensures (Counted o child.next end (before + 1 + m)) r
        → Ensures (Counted (one_more o) offset end before) r
    join o child offset end before m r e i h =
        map-Ensures _ _ _
          (λ v (n, t, k). (
            suc (m + n),
            node bytes o child offset end m n e i t,
            subst (λ x. IsWithin budget x v) (omega arith) k,
          ))
          h

    next-Ensures :
        (loop : Loop) (offset end depth before : ℕ) (w : Walked)
        → end ≤ offset + f
        → IsWithin budget before w
        → Ensures
            (Counted (one_more (extent_of loop)) offset end before)
            (next_box bytes budget s loop offset end depth w)
    unfolding next_box
    next-Ensures loop offset end depth before w l h =
        known-Ensures _ _ _ _ (read_header-Ensures bytes offset end) (λ child e c.
          bind-Ensures _ _ _ _
            (visit-Ensures child depth before w (omega (arith, l, c.after, c.inside)) h)
            (λ v (m, i, k). join (extent_of loop) child offset end before m _ e i (
              enough loop child.next end depth (before + 1 + m) v
                (omega (arith, l, c.after, c.ordered, c.joined)) k)))

    count-Ensures :
        (seen declared offset end depth before : ℕ) (w : Walked)
        → end ≤ offset + f
        → IsWithin budget before w
        → Ensures
            (Counted none offset end before)
            (count_box bytes budget s seen declared offset end depth w)
    unfolding count_box
    count-Ensures seen declared offset end depth before w l h =
        known-Ensures _ _ _ _ (read_header-Ensures bytes offset end) (λ child e c.
          bind-Ensures _ _ _ _
            (visit-Ensures child depth before w (omega (arith, l, c.after, c.inside)) h)
            (λ v (m, i, k).
              bind-Ensures _ _ _ _
                (checked_add-Ensures (2 ^ 32) seen 1 (limit (codes "container item count")))
                (λ n z. join none child offset end before m _ e i (
                  enough (counted n declared) child.next end depth (before + 1 + m) v
                    (omega (arith, l, c.after, c.ordered, c.joined)) k))))

  nothing-Counted :
      (o : Option ℕ) (offset end before : ℕ) (w : Walked)
      → Boxes bytes o offset end 0
      → IsWithin budget before w
      → Counted o offset end before w
  nothing-Counted o offset end before w t h =
      (0, t, subst (λ x. IsWithin budget x w) (omega arith) h)

  -- Fuel that exceeds the bytes that are left is enough.
  scan-Ensures : (f : ℕ) → 1 ≤ f → IsEnough f (scan bytes budget f)
  unfolding scan
  scan-Ensures zero some_fuel loop offset end depth before w l h = absurd (omega (arith, some_fuel))
  scan-Ensures (suc f) some_fuel every offset end depth before w l h =
      if-Ensures _ (ltb offset end) _ _
        (λ e.
          next-Ensures f (scan bytes budget f) (scan-Ensures f (ground arith)) every offset end
            depth before w (omega (arith, l)) h)
        (λ e.
          value _ (nothing-Counted none offset end before w (to_end offset end (ground arith)) h))
  scan-Ensures (suc f) some_fuel (counted seen declared) offset end depth before w l h =
      if-Ensures _ (ltb offset end) _ _
        (λ e.
          count-Ensures f (scan bytes budget f) (scan-Ensures f (ground arith)) seen declared offset
            end depth before w (omega (arith, l)) h)
        (λ e.
          if-Ensures _ (seen == declared) _ _
            (λ _.
              value _
                (nothing-Counted none offset end before w (to_end offset end (ground arith)) h))
            (λ _. error _))
  scan-Ensures (suc f) some_fuel (listed zero) offset end depth before w l h =
      value _ (nothing-Counted (some 0) offset end before w (all_there offset end) h)
  scan-Ensures (suc f) some_fuel (listed (suc n)) offset end depth before w l h =
      if-Ensures _ (leb end offset) _ _ (λ _. error _)
        (λ e.
          next-Ensures f (scan bytes budget f) (scan-Ensures f (ground arith)) (listed n) offset end
            depth before w (omega (arith, l)) h)

  pub file-Ensures : Ensures (Counted none 0 (length bytes) 0) (walk_file bytes budget)
  unfolding walk_file
  file-Ensures =
      walk-Ensures (suc (length bytes)) (scan bytes budget (suc (length bytes)))
        (scan-Ensures (suc (length bytes)) (omega arith)) 0 (length bytes) 0 0 (fresh bytes budget)
        (omega arith)
        (record {
          items = omega arith;
          iloc_records = omega arith;
          iref_references = omega arith;
          ipma_entries = omega arith;
          ipma_associations = omega arith;
          boxes = omega arith;
          metadata_items = omega arith;
          located = refl;
          loaded = omega arith;
          visited = omega arith;
          counted_boxes = refl;
        })
