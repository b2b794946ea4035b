-- ===== src/Locker/Services.antt =====
-- What the presentation of src/locker/mod.rs calls: the worker's client of src/locker/auth.rs, the
-- wallpaper of src/wallpaper.rs and the drawing of text. The identity of the user is the one all of
-- them are made for.
use genkan.Prelude.{ℕ, Bool, Option, List, Text}
use genkan.SessionLock.Frames.{RgbaFrame}
use genkan.Conversation.{Conversation}

-- `auth::Event`.
pub data Event : Type 0 where
  prompt : ℕ → Bool → Text → Event
  notice : Bool → Text → Event
  success failure : Event

-- `wallpaper::Refresh`.
pub data WallpaperRefresh : Type 0 where
  unchanged frame failed : WallpaperRefresh

-- A client is its channel, with what the reader thread is yet to put into it: an empty poll leaves
-- a client too, for which a later poll may deliver. A Boolean is true where the call returns `Ok`. `start n` is the outcome of the start with number
-- n.
pub record Services : Type 1 where
  pub Client : Type 0
  pub try_receive : Client → Option Event × Client
  pub begin : Client → Bool × Client
  pub retry : Client → Bool × Client
  pub respond : ℕ → Text → Client → Bool × Client
  pub start : ℕ → Option Client
  pub Wallpaper : Type 0
  pub receive_wallpaper : Wallpaper → WallpaperRefresh × Wallpaper
  pub wallpaper_frame : Wallpaper → Option RgbaFrame
  pub render_authentication_overlay : Conversation → Bool → ℕ → List ℕ
