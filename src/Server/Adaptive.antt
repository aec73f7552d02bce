-- ===== src/Server/Adaptive.antt =====
-- server/encoder/adaptive_controller.cpp and its header: the encoder's settings, from the network and
-- the scene. The one product in floating point is a parameter.
pub mod Codec
pub mod Keyframes
pub mod Bitrate
mod Tests
use Prim.Native.Nat.{bit_and}
use ultra_display_os.Prelude.{
  ℕ, ◌+◌, ◌-◌, ◌*◌, ◌%◌, ◌^◌, Bool, true, false, not, ◌&&◌, ◌||◌, ltb, leb, ◌==◌, if◌then◌else◌,
}
use ultra_display_os.Shared.CodecConfig.{
  VideoCodec, auto, h264, hevc, av1, codec_index, Capabilities,
}

pub record EncoderConfig : Type 0 where
  pub codec : VideoCodec
  pub bitrate_bps : ℕ  -- uint32
  pub framerate : ℕ  -- uint32
  pub force_idr : Bool
  pub enable_lossless : Bool
  pub roi_qp_delta : ℕ  -- uint32

-- The statistic of the transport that the controller reads is the estimated bandwidth.
pub record AdaptiveController : Type 0 where
  pub server_caps : Capabilities
  pub client_caps : Capabilities
  pub bandwidth_est_bps : ℕ  -- uint64
  pub current_config : EncoderConfig
  pub frames_since_keyframe : ℕ  -- uint32
  pub max_gop_size : ℕ  -- uint32

-- The fields of SceneAnalysis that the controller reads.
pub record SceneFlags : Type 0 where
  pub trigger_keyframe : Bool
  pub is_idle : Bool

abbrev no_caps : Capabilities
no_caps = record {
  max_width = 0;
  max_height = 0;
  max_fps = 0;
  supported_codecs_mask = 0;
  supports_10bit = false;
  supports_12bit = false;
  supports_lossless = false;
}

-- The constructor. The capabilities are not initialised in the source before `init` sets them.
abbrev pub new : AdaptiveController
new = record {
  server_caps = no_caps;
  client_caps = no_caps;
  bandwidth_est_bps = 0;
  current_config = record {
    codec = auto;
    bitrate_bps = 0;
    framerate = 0;
    force_idr = false;
    enable_lossless = false;
    roi_qp_delta = 0;
  };
  frames_since_keyframe = 0;
  max_gop_size = 300;
}

pub same_codec : VideoCodec → VideoCodec → Bool
unfolding codec_index
same_codec a b = codec_index a == codec_index b

-- `mask & (1 << codec)`, as a test
pub offers : ℕ → VideoCodec → Bool
unfolding codec_index
offers mask codec = not (bit_and mask (2 ^ codec_index codec) == 0)

pub next_codec : ℕ → VideoCodec
unfolding offers
next_codec common_mask =
    if offers common_mask av1 then av1 else if offers common_mask hevc then hevc else h264

pub adapt_codec : AdaptiveController → AdaptiveController
unfolding next_codec same_codec
adapt_codec c =
    if ltb 2000000000 c.bandwidth_est_bps
      && c.server_caps.supports_lossless
      && c.client_caps.supports_lossless
    then record c { current_config = record (c.current_config) { enable_lossless = true } }
    else let next =
        next_codec
          (bit_and c.server_caps.supported_codecs_mask c.client_caps.supported_codecs_mask) in
      if same_codec c.current_config.codec next
      then record c { current_config = record (c.current_config) { enable_lossless = false } }
      else record c {
        current_config = record (c.current_config) {
          enable_lossless = false;
          codec = next;
          force_idr = true;
        };
      }

pub init : AdaptiveController → Capabilities → Capabilities → AdaptiveController
unfolding adapt_codec
init c server_caps client_caps = adapt_codec (record c {
  server_caps = server_caps;
  client_caps = client_caps;
  current_config = record {
    codec = h264;
    bitrate_bps = 5000000;
    framerate = 60;
    force_idr = true;
    enable_lossless = false;
    roi_qp_delta = 15;
  };
})

abbrev pub clamp : ℕ → ℕ → ℕ → ℕ
clamp v lo hi = if ltb v lo then lo else if ltb hi v then hi else v

-- The distance of two numbers; both casts to `int` are exact, since the values are below 2 ^ 31.
abbrev pub distance : ℕ → ℕ → ℕ
distance a b = (a - b) + (b - a)

-- `four_fifths` is `static_cast<uint32_t>(bps * 0.8f)`.
module _ (four_fifths : ℕ → ℕ) where
  pub adapt_bitrate : AdaptiveController → AdaptiveController
  adapt_bitrate c =
      if ltb 0 c.bandwidth_est_bps
      then (let target_bps = clamp (four_fifths c.bandwidth_est_bps) 1000000 150000000 in
          if ltb 1000000 (distance target_bps c.current_config.bitrate_bps)
          then record c { current_config = record (c.current_config) { bitrate_bps = target_bps } }
          else c)
      else c

  pub update_network_stats : AdaptiveController → ℕ → AdaptiveController
  unfolding adapt_bitrate adapt_codec
  update_network_stats c bandwidth_est_bps =
      adapt_codec (adapt_bitrate (record c { bandwidth_est_bps = bandwidth_est_bps }))

-- The controller after the call, and the configuration that it returns.
pub evaluate_frame : AdaptiveController → SceneFlags → AdaptiveController × EncoderConfig
evaluate_frame c scene =
    let frames : ℕ = (c.frames_since_keyframe + 1) % 2 ^ 32 in
    let keyframe = scene.trigger_keyframe || leb c.max_gop_size frames in
    let config = record (c.current_config) {
      force_idr = keyframe;
      roi_qp_delta = if scene.is_idle then 51 else 20;
    } in
    (
      record c { current_config = config; frames_since_keyframe = if keyframe then 0 else frames },
      config,
    )
