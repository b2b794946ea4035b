-- ===== src/SessionLock/Frames.antt =====
-- crates/session-lock/src/lib.rs: frames, refreshes, inputs, and the `Presentation` trait. Widths,
-- heights and offsets are `u32`, pixels are bytes.
use genkan.Prelude.{
  ℕ, ◌+◌, ◌*◌, ◌^◌, Bool, ◌&&◌, ◌||◌, Option, none, some, List, Text, ltb, ◌==◌, if◌then◌else◌,
  length, ◌>>=◌,
}

-- `u32::checked_mul` and `u32::checked_add`.
abbrev pub checked_mul : ℕ → ℕ → Option ℕ
checked_mul a b = if ltb (a * b) (2 ^ 32) then some (a * b) else none

abbrev pub checked_add : ℕ → ℕ → Option ℕ
checked_add a b = if ltb (a + b) (2 ^ 32) then some (a + b) else none

pub record RgbaFrame : Type 0 where
  pub width : ℕ
  pub height : ℕ
  pub pixels : List ℕ

-- `RgbaFrame::new`.
unfoldable pub rgba_frame : ℕ → ℕ → List ℕ → Option RgbaFrame
rgba_frame width height pixels = do
  area ← checked_mul width height
  expected ← checked_mul area 4
  if ltb 0 width && ltb 0 height && length pixels == expected
      then some (record { width = width; height = height; pixels = pixels })
      else none

pub record PresentationFrame : Type 0 where
  pub width : ℕ
  pub height : ℕ
  pub background : Option RgbaFrame
  pub overlay : RgbaFrame
  pub overlay_x : ℕ
  pub overlay_y : ℕ

-- `checked_add(..)? > limit`: `none` where the sum overflows.
abbrev exceeds : ℕ → ℕ → ℕ → Option Bool
exceeds a b limit = checked_add a b >>= λ sum. some (ltb limit sum)

-- `PresentationFrame::new`. The second sum is made only if the first one fits.
unfoldable pub presentation_frame :
    ℕ → ℕ → Option RgbaFrame → RgbaFrame → ℕ → ℕ → Option PresentationFrame
presentation_frame width height background overlay overlay_x overlay_y =
    let made : PresentationFrame = record {
      width = width;
      height = height;
      background = background;
      overlay = overlay;
      overlay_x = overlay_x;
      overlay_y = overlay_y;
    } in
    if width == 0 || height == 0
    then none
    else exceeds overlay_x overlay.width width >>= λ too_wide.
        if too_wide
        then none
        else exceeds overlay_y overlay.height height >>= λ too_high.
            if too_high then none else some made

pub data Refresh : Type 0 where
  unchanged frame overlay failed : Refresh

pub data Input : Type 0 where
  text : Text → Input
  backspace submit cancel next_page : Input

-- `trait Presentation`: what the lock runtime asks of whoever draws and authenticates.
pub record Presentation : Type 1 where
  pub State : Type 0
  pub receive_latest : State → Refresh × State
  pub receive_deferred : State → Refresh × State
  pub frame : State → Option PresentationFrame
  pub lock_confirmed : State → State
  pub input : State → Input → Bool × State
  pub take_authorization : State → Bool × State
