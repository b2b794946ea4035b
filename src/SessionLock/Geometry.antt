-- ===== src/SessionLock/Geometry.antt =====
-- crates/session-lock/src/runtime.rs: buffer sizes and the regions that are drawn. All quantities
-- are `u32` unless the source widens them to `u128`, which none of the products here exceeds.
use genkan.Prelude.{
  ℕ, ◌+◌, ◌-◌, ◌*◌, ◌/◌, ◌%◌, ◌^◌, min, max, Bool, ◌&&◌, ◌||◌, Option, none, some, ltb, leb, ◌==◌,
  if◌then◌else◌, ◌>>=◌,
}
use genkan.SessionLock.Frames.{PresentationFrame, checked_mul}
use genkan.SessionLock.Redraw.{RedrawKind}

abbrev pub max_surface_dimension : ℕ
max_surface_dimension = 16384

pub data SizeError : Type 0 where
  overflow empty exceeds_limit : SizeError

pub data SizeResult : Type 0 where
  ok : ℕ → ℕ → SizeResult
  err : SizeError → SizeResult

checked_size : Option ℕ → Option ℕ → SizeResult
checked_size none h = err overflow
checked_size (some w) none = err overflow
checked_size (some w) (some h) =
    if w == 0 || h == 0
    then err empty
    else if ltb max_surface_dimension w || ltb max_surface_dimension h
    then err exceeds_limit
    else ok w h

unfoldable pub buffer_size : ℕ → ℕ → ℕ → SizeResult
unfolding checked_size
buffer_size width height scale = checked_size (checked_mul width scale) (checked_mul height scale)

-- `aligned_buffer_capacity`, for a 64-bit `usize`.
unfoldable pub aligned_buffer_capacity : ℕ → Option ℕ
aligned_buffer_capacity bytes =
    if ltb (bytes + 63) (2 ^ 64) then some ((bytes + 63) / 64 * 64) else none

pub record Region : Type 0 where
  pub x : ℕ
  pub y : ℕ
  pub width : ℕ
  pub height : ℕ

abbrev pub full_region : ℕ → ℕ → Region
full_region width height = record { x = 0; y = 0; width = width; height = height }

pub record FrameGeometry : Type 0 where
  pub canvas : ℕ × ℕ
  pub overlay : Region

geometry_of : PresentationFrame → FrameGeometry
geometry_of frame = record {
  canvas = (frame.width, frame.height);
  overlay = record {
    x = frame.overlay_x;
    y = frame.overlay_y;
    width = frame.overlay.width;
    height = frame.overlay.height;
  };
}

unfoldable pub frame_geometry : Option PresentationFrame → Option FrameGeometry
unfolding geometry_of
frame_geometry none = none
frame_geometry (some frame) = some (geometry_of frame)

-- The derived `PartialEq`.
unfoldable pub region_eq : Region → Region → Bool
region_eq a b = a.x == b.x && (a.y == b.y && (a.width == b.width && a.height == b.height))

same_geometry : Option FrameGeometry → Option FrameGeometry → Bool
unfolding region_eq
same_geometry none none = Bool.true
same_geometry none (some b) = Bool.false
same_geometry (some a) none = Bool.false
same_geometry (some a) (some b) =
    a.canvas.0 == b.canvas.0 && (a.canvas.1 == b.canvas.1 && region_eq a.overlay b.overlay)

unfoldable pub overlay_redraw_kind : Option FrameGeometry → Option FrameGeometry → RedrawKind
unfolding same_geometry
overlay_redraw_kind previous current =
    if same_geometry previous current then RedrawKind.overlay else RedrawKind.full

-- `u32::saturating_add`.
abbrev saturating_add : ℕ → ℕ → ℕ
saturating_add a b = min (a + b) (2 ^ 32 - 1)

unfoldable pub intersect : Region → Region → Option Region
intersect first second =
    let left = max first.x second.x in
    let top = max first.y second.y in
    let right = min (saturating_add first.x first.width) (saturating_add second.x second.width) in
    let bottom =
      min (saturating_add first.y first.height) (saturating_add second.y second.height) in
    if ltb left right && ltb top bottom
    then some (record { x = left; y = top; width = right - left; height = bottom - top })
    else none

-- `u32::try_from(..).ok()`.
abbrev to_u32 : ℕ → Option ℕ
to_u32 n = if ltb n (2 ^ 32) then some n else none

unfoldable pub div_ceil : ℕ → ℕ → Option ℕ
div_ceil numerator denominator =
    if denominator == 0 then none else to_u32 ((numerator + (denominator - 1)) / denominator)

-- Addition of `u32` wraps.
abbrev add_u32 : ℕ → ℕ → ℕ
add_u32 a b = (a + b) % 2 ^ 32

-- The part of the buffer that the presentation's canvas covers.
unfoldable pub canvas_size : ℕ → ℕ → ℕ → ℕ → Option (ℕ × ℕ)
canvas_size source_width source_height width height =
    if leb (width * source_height) (source_width * height)
    then (to_u32 (source_height * width / source_width) >>= λ h. some (width, h))
    else to_u32 (source_width * height / source_height) >>= λ w. some (w, height)

-- The overlay's place inside a canvas.
unfoldable pub place_overlay : PresentationFrame → ℕ → ℕ → ℕ × ℕ → Option Region
unfolding div_ceil
place_overlay frame width height (canvas_width, canvas_height) =
    let canvas_x = (width - canvas_width) / 2 in
    let canvas_y = (height - canvas_height) / 2 in
    do
      left ← to_u32 (frame.overlay_x * canvas_width / frame.width)
      top ← to_u32 (frame.overlay_y * canvas_height / frame.height)
      right ← div_ceil (add_u32 frame.overlay_x frame.overlay.width * canvas_width) frame.width
      bottom ← div_ceil (add_u32 frame.overlay_y frame.overlay.height * canvas_height) frame.height
      some (record {
        x = add_u32 canvas_x left;
        y = add_u32 canvas_y top;
        width = add_u32 canvas_x right - add_u32 canvas_x left;
        height = add_u32 canvas_y bottom - add_u32 canvas_y top;
      })

place_nonempty : PresentationFrame → ℕ → ℕ → ℕ × ℕ → Option Region
unfolding place_overlay
place_nonempty frame width height (w, h) =
    if w == 0 || h == 0 then none else place_overlay frame width height (w, h)

-- `overlay_geometry`: where the overlay is drawn in a buffer of the given size.
unfoldable pub overlay_geometry : PresentationFrame → ℕ → ℕ → Option Region
unfolding canvas_size place_nonempty
overlay_geometry frame width height =
    if frame.width == 0 || (frame.height == 0 || (width == 0 || height == 0))
    then none
    else canvas_size frame.width frame.height width height >>= place_nonempty frame width height

overlay_region : Option PresentationFrame → ℕ → ℕ → Option Region
unfolding overlay_geometry
overlay_region frame width height = frame >>= λ f. overlay_geometry f width height

or_full : Option Region → ℕ → ℕ → Region
or_full none width height = full_region width height
or_full (some r) width height = r

is_overlay_kind : RedrawKind → Bool
is_overlay_kind RedrawKind.overlay = Bool.true
is_overlay_kind RedrawKind.full = Bool.false

-- What a redraw damages.
unfoldable pub redraw_region : RedrawKind → ℕ → ℕ → Option PresentationFrame → ℕ → ℕ → Region
unfolding or_full overlay_region is_overlay_kind
redraw_region kind rendered_background current_background frame width height =
    if is_overlay_kind kind && rendered_background == current_background
    then or_full (overlay_region frame width height) width height
    else full_region width height

-- `cover_geometry`: the crop and the scaled size of a background that covers a surface.
pub record Cover : Type 0 where
  pub crop_x : ℕ
  pub crop_y : ℕ
  pub scaled_width : ℕ
  pub scaled_height : ℕ

cover_of : ℕ → ℕ → ℕ → ℕ → Cover
cover_of width height scaled_width scaled_height = record {
  crop_x = (scaled_width - width) / 2;
  crop_y = (scaled_height - height) / 2;
  scaled_width = scaled_width;
  scaled_height = scaled_height;
}

unfoldable pub cover_geometry : ℕ → ℕ → ℕ → ℕ → Option Cover
unfolding cover_of
cover_geometry source_width source_height width height =
    if source_width == 0 || (source_height == 0 || (width == 0 || height == 0))
    then none
    else if ltb (width * source_height) (source_width * height)
    then some (cover_of width height (source_width * height / source_height) height)
    else some (cover_of width height width (source_height * width / source_width))

unfoldable pub source_coordinate : ℕ → ℕ → ℕ → ℕ → ℕ
source_coordinate position crop scaled source =
    min ((position + crop) * source / scaled) (source - 1)

-- One channel of `blend_rgb`, and `dim`.
unfoldable pub blend_channel : ℕ → ℕ → ℕ → ℕ
blend_channel background foreground alpha =
    (foreground * alpha + background * (255 - alpha)) / 255 % 256

unfoldable pub dim : ℕ → ℕ
dim value = value * 4 / 5 % 256
