-- ===== src/Shared/CodecConfig.antt =====
-- shared/protocol/codec_config.hpp: codecs, and what each side can do.
use ultra_display_os.Prelude.{ℕ, Bool}

pub data VideoCodec : Type 0 where
  auto h264 hevc av1 raw_rgb : VideoCodec

unfoldable pub codec_index : VideoCodec → ℕ
codec_index auto = 0
codec_index h264 = 1
codec_index hevc = 2
codec_index av1 = 3
codec_index raw_rgb = 4

-- EncoderCapabilities and DecoderCapabilities have the same fields.
pub record Capabilities : Type 0 where
  pub max_width : ℕ
  pub max_height : ℕ
  pub max_fps : ℕ
  pub supported_codecs_mask : ℕ  -- uint32
  pub supports_10bit : Bool
  pub supports_12bit : Bool
  pub supports_lossless : Bool
