-- ===== src/Server/ColorConverter.antt =====
-- server/encoder/d3d11_color_convert.cpp and its header: captured textures made into those that an encoder
-- takes, by the video processor of Direct3D. What a call of the system comes back with is an argument.
pub mod Sizes
mod Tests
use ultra_display_os.Prelude.{ℕ, Bool, true, false, ◌&&◌, ◌==◌, if◌then◌else◌, Option, none, some}
use ultra_display_os.Shared.Result.{Result, ok, err, invalid_parameter, system_error}

pub record Size : Type 0 where
  pub width : ℕ
  pub height : ℕ

-- An output texture, with its view: in the format P010 or NV12.
pub record Texture : Type 0 where
  pub size : Size
  pub is_p010 : Bool

-- The enumerator and the processor with the size that they are made for.
pub record ColorConverter : Type 0 where
  pub video_device : Bool
  pub video_context : Bool
  pub video_enum : Option Size
  pub video_processor : Option Size
  pub nv12_texture : Option Texture
  pub p010_texture : Option Texture
  pub current : Size

abbrev pub new : ColorConverter
new = record {
  video_device = false;
  video_context = false;
  video_enum = none;
  video_processor = none;
  nv12_texture = none;
  p010_texture = none;
  current = record { width = 0; height = 0 };
}

-- The outcomes of the two queries. Each writes its pointer, null when it fails.
pub init : ColorConverter → Bool → Bool → Result (Unit {0}) × ColorConverter
init t false context = (err system_error, record t { video_device = false })
init t true false = (err system_error, record t { video_device = true; video_context = false })
init t true true = (ok tt, record t { video_device = true; video_context = true })

-- The outcomes of the calls of `ensure_output_texture` and of `convert`, in their order.
pub record Calls : Type 0 where
  pub texture : Bool
  pub enumerator : Bool
  pub processor : Bool
  pub output_view : Bool
  pub input_view : Bool
  pub blt : Bool

abbrev pub all_succeed : Calls
all_succeed = record {
  texture = true;
  enumerator = true;
  processor = true;
  output_view = true;
  input_view = true;
  blt = true;
}

abbrev pub same_size : Size → Size → Bool
same_size a b = (a.width == b.width) && (a.height == b.height)

abbrev pub is_some : Option Texture → Bool
is_some none = false
is_some (some x) = true

-- The texture of a mode.
abbrev pub output_texture : ColorConverter → Bool → Option Texture
output_texture t true = t.p010_texture
output_texture t false = t.nv12_texture

abbrev pub set_output : ColorConverter → Bool → Texture → ColorConverter
set_output t true x = record t { p010_texture = some x }
set_output t false x = record t { nv12_texture = some x }

-- From the creation of the texture on. A pointer is released before the call that writes it.
pub create_output :
    ColorConverter → Size → Bool → Bool → Bool → Bool → Bool → Result (Unit {0}) × ColorConverter
create_output t size is_hdr false enumerator processor view = (err system_error, t)
create_output t size is_hdr true false processor view =
    (err system_error, record t { video_enum = none })
create_output t size is_hdr true true false view =
    (err system_error, record t { video_enum = some size; video_processor = none })
create_output t size is_hdr true true true false =
    (err system_error, record t { video_enum = some size; video_processor = some size })
create_output t size is_hdr true true true true = (
  ok tt,
  set_output (record t { video_enum = some size; video_processor = some size }) is_hdr
      (record { size = size; is_p010 = is_hdr }),
)

pub ensure_output_texture :
    ColorConverter → Size → Bool → Calls → Result (Unit {0}) × ColorConverter
unfolding create_output
ensure_output_texture t size is_hdr calls =
    if same_size t.current size && is_some (output_texture t is_hdr)
    then (ok tt, t)
    else create_output (record t { current = size }) size is_hdr calls.texture calls.enumerator
        calls.processor calls.output_view

-- The rest of `convert`.
pub blt :
    Result (Unit {0}) × ColorConverter → Bool → Calls → Result (Option Texture) × ColorConverter
blt (err e, t) request_hdr calls = (err e, t)
blt (ok v, t) request_hdr calls =
    if calls.input_view && calls.blt
    then (ok (output_texture t request_hdr), t)
    else (err system_error, t)

pub convert : ColorConverter → Size → Bool → Calls → Result (Option Texture) × ColorConverter
unfolding ensure_output_texture blt
convert t src request_hdr calls =
    if t.video_device && t.video_context
    then blt (ensure_output_texture t src request_hdr calls) request_hdr calls
    else (err invalid_parameter, t)
