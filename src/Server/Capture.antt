-- ===== src/Server/Capture.antt =====
-- server/capture/dxgi_capture.cpp and its header: the frames of a desktop, by the duplication interface of
-- DXGI. What a call of the system comes back with is an argument. A result `none` is a null pointer that
-- is followed. The device and its context are set and reset together, and are one field.
pub mod Monitors
pub mod Valid
pub mod Held
pub mod Stale
mod Tests
use ultra_display_os.Prelude.{
  ℕ, zero, suc, ◌/◌, max, Bool, true, false, ◌&&◌, List, [], ◌∷◌, ◌==◌, ltb, if◌then◌else◌, Option,
  none, some, take,
}
use ultra_display_os.Shared.Result.{Result, ok, err, invalid_parameter, system_error, timeout}

-- Of D3D11_TEXTURE2D_DESC, and of DXGI_MODE_DESC, what is compared.
pub record Desc : Type 0 where
  pub width : ℕ
  pub height : ℕ
  pub format : ℕ

-- `owner` is the device that created the texture.
pub record Texture : Type 0 where
  pub owner : ℕ
  pub desc : Desc

pub record Rect : Type 0 where
  pub left : ℕ
  pub top : ℕ
  pub right : ℕ
  pub bottom : ℕ

-- sizeof(RECT)
abbrev pub rect_size : ℕ
rect_size = 16

-- `move_rects` is filled nowhere and left out.
pub record CapturedFrame : Type 0 where
  pub texture : Texture
  pub dirty_rects : List Rect
  pub shown : Desc
  pub has_cursor_update : Bool

-- `held` is the system's: whether a frame of the duplication is acquired and not released.
pub record DxgiCapture : Type 0 where
  pub device : Option ℕ
  pub duplication : Bool
  pub staging_texture : Option Texture
  pub metadata_size : ℕ
  pub mode : Desc
  pub held : Bool

abbrev pub new : DxgiCapture
new = record {
  device = none;
  duplication = false;
  staging_texture = none;
  metadata_size = 0;
  mode = record { width = 0; height = 0; format = 0 };
  held = false;
}

-- A monitor: whether it has the interface IDXGIOutput5, and the mode when its duplication succeeds.
pub record Output : Type 0 where
  pub supported : Bool
  pub duplicated : Option Desc

-- The pointer of the device is released before the call.
pub create_device : DxgiCapture → Option ℕ → Result (Unit {0}) × DxgiCapture
create_device t none = (err system_error, record t { device = none })
create_device t (some d) = (ok tt, record t { device = some d })

-- The end of `init_duplication`. The pointer of the duplication is released before the call.
pub duplicate : DxgiCapture → Option Desc → Result (Unit {0}) × DxgiCapture
duplicate t none = (err system_error, record t { duplication = false; held = false })
duplicate t (some desc) = (ok tt, record t { duplication = true; held = false; mode = desc })

pub init_duplication : DxgiCapture → Output → Result (Unit {0}) × DxgiCapture
unfolding duplicate
init_duplication t output =
    if output.supported then duplicate t output.duplicated else (err system_error, t)

-- The loop over the outputs of an adapter: the output, or the index that is left.
pub data Search : Type 0 where
  found : Output → Search
  left_over : ℕ → Search

pub search_outputs : List Output → ℕ → Search
search_outputs [] i = left_over i
search_outputs (o ∷ os) zero = found o
search_outputs (o ∷ os) (suc i) = search_outputs os i

-- The loop over the adapters.
pub search_adapters : List (List Output) → ℕ → Option Output
unfolding search_outputs
search_adapters [] i = none
search_adapters (os ∷ rest) i = elim (search_outputs os i) [
  | found o ↦ some o
  | left_over j ↦ search_adapters rest j
]

-- The end of `init`, with the monitor that the loops find.
pub open_monitor : DxgiCapture → Option Output → Result (Unit {0}) × DxgiCapture
unfolding init_duplication
open_monitor t none = (err invalid_parameter, t)
open_monitor t (some o) = init_duplication t o

pub after_device :
    DxgiCapture
    → Result (Unit {0})
    → Bool
    → List (List Output)
    → ℕ
    → Result (Unit {0}) × DxgiCapture
unfolding search_adapters open_monitor
after_device t (err e) factory adapters i = (err e, t)
after_device t (ok v) false adapters i = (err system_error, t)
after_device t (ok v) true adapters i = open_monitor t (search_adapters adapters i)

pub init : DxgiCapture → Option ℕ → Bool → List (List Output) → ℕ → Result (Unit {0}) × DxgiCapture
unfolding create_device after_device
init t device factory adapters monitor_index =
    let (result, created) = create_device t device in
    after_device created result factory adapters monitor_index

abbrev pub same_desc : Desc → Desc → Bool
same_desc a b = (a.width == b.width) && (a.height == b.height) && (a.format == b.format)

-- The rest of `ensure_staging_texture`. The pointer of the texture is released before the call.
pub create_staging_texture :
    DxgiCapture → Option ℕ → Desc → Bool → Option (Result (Unit {0}) × DxgiCapture)
create_staging_texture t none desc created = none
create_staging_texture t (some d) desc false =
    some (err system_error, record t { staging_texture = none })
create_staging_texture t (some d) desc true =
    some (ok tt, record t { staging_texture = some (record { owner = d; desc = desc }) })

pub ensure_staging_texture : DxgiCapture → Desc → Bool → Option (Result (Unit {0}) × DxgiCapture)
unfolding create_staging_texture
ensure_staging_texture t desc created = elim t.staging_texture [
  | none ↦ create_staging_texture t t.device desc created
  | some texture ↦
      if same_desc texture.desc desc
      then some (ok tt, t)
      else create_staging_texture t t.device desc created
]

-- Of DXGI_OUTDUPL_FRAME_INFO.
pub record FrameInfo : Type 0 where
  pub last_present_time : ℕ
  pub last_mouse_update_time : ℕ
  pub total_metadata_buffer_size : ℕ

-- What GetFrameDirtyRects leaves in the buffer, and its `size_required`, when it succeeds.
pub dirty_rects : FrameInfo → Option (List Rect × ℕ) → List Rect
dirty_rects info none = []
dirty_rects info (some (buffer, size_required)) =
    if ltb 0 info.total_metadata_buffer_size then take (size_required / rect_size) buffer else []

-- What AcquireNextFrame comes back with: a failure, or a frame with the description of its texture, if its
-- resource is one.
pub data Acquired : Type 0 where
  wait_timeout access_lost device_removed device_reset invalid_call failed : Acquired
  acquired : FrameInfo → Option Desc → Acquired

abbrev pub reset : DxgiCapture → DxgiCapture
reset t = record t { duplication = false; held = false; device = none; staging_texture = none }

-- The copy into the staging texture and the frame that is returned.
pub copy_frame :
    DxgiCapture
    → Option ℕ
    → Option Texture
    → FrameInfo
    → Option (List Rect × ℕ)
    → Option (Result CapturedFrame × DxgiCapture)
unfolding dirty_rects
copy_frame t none texture info rects = none
copy_frame t (some d) none info rects = none
copy_frame t (some d) (some texture) info rects = some (
  ok (record {
    texture = texture;
    dirty_rects = dirty_rects info rects;
    shown = t.mode;
    has_cursor_update = ltb 0 info.last_mouse_update_time;
  }),
  record t { metadata_size = max t.metadata_size info.total_metadata_buffer_size },
)

pub after_staging :
    Option (Result (Unit {0}) × DxgiCapture)
    → FrameInfo
    → Option (List Rect × ℕ)
    → Option (Result CapturedFrame × DxgiCapture)
unfolding copy_frame
after_staging none info rects = none
after_staging (some (err e, t)) info rects = some (err e, t)
after_staging (some (ok v, t)) info rects = copy_frame t t.device t.staging_texture info rects

-- `t` holds the frame.
pub take_frame :
    DxgiCapture
    → FrameInfo
    → Option Desc
    → Bool
    → Option (List Rect × ℕ)
    → Option (Result CapturedFrame × DxgiCapture)
unfolding ensure_staging_texture after_staging
take_frame t info none created rects =
    if info.last_present_time == 0
    then some (err timeout, record t { held = false })
    else some (err system_error, record t { held = false })
take_frame t info (some desc) created rects =
    if info.last_present_time == 0
    then some (err timeout, record t { held = false })
    else after_staging (ensure_staging_texture t desc created) info rects

pub answer :
    DxgiCapture
    → Acquired
    → Bool
    → Option (List Rect × ℕ)
    → Option (Result CapturedFrame × DxgiCapture)
unfolding take_frame
answer t wait_timeout created rects = some (err timeout, t)
answer t access_lost created rects =
    some (err system_error, record t { duplication = false; held = false })
answer t device_removed created rects = some (err system_error, reset t)
answer t device_reset created rects = some (err system_error, reset t)
answer t invalid_call created rects = some (err system_error, reset t)
answer t failed created rects = some (err system_error, t)
answer t (acquired info desc) created rects =
    take_frame (record t { held = true }) info desc created rects

-- `created` is the outcome of CreateTexture2D, if it is called.
pub acquire_next_frame :
    DxgiCapture
    → Acquired
    → Bool
    → Option (List Rect × ℕ)
    → Option (Result CapturedFrame × DxgiCapture)
unfolding answer
acquire_next_frame t call created rects =
    if t.duplication then answer t call created rects else some (err invalid_parameter, t)

pub release_frame : DxgiCapture → DxgiCapture
release_frame t = if t.duplication then record t { held = false } else t
