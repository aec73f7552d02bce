-- ===== src/Server/Adaptive/Codec.antt =====
-- Which codec and mode the controller settles on.
use Prim.Native.Nat.{bit_and}
use ultra_display_os.Prelude.{ℕ, ◌<◌, ◌≡◌, ◌⊎◌, true, false, ◌&&◌, arith}
use ultra_display_os.Prelude.Bits.{bit_and-four, bit_and-eight, bit_and-third, bit_and-fourth}
use ultra_display_os.Shared.CodecConfig.{VideoCodec, auto, h264, hevc, av1, raw_rgb, codec_index}
use ultra_display_os.Server.Adaptive.{
  AdaptiveController, same_codec, offers, next_codec, adapt_codec,
}

-- Both sides have the codec in their masks.
abbrev pub BothOffer : AdaptiveController → VideoCodec → Type 0
BothOffer c codec =
    (offers c.server_caps.supported_codecs_mask codec ≡ true)
    × (offers c.client_caps.supported_codecs_mask codec ≡ true)

abbrev pub common_mask : AdaptiveController → ℕ
common_mask c = bit_and c.server_caps.supported_codecs_mask c.client_caps.supported_codecs_mask

offers-av1_common : (a b : ℕ) → offers (bit_and a b) av1 ≡ offers a av1 && offers b av1
unfolding offers codec_index
offers-av1_common a b =
    ground
      (arith, bit_and-eight a, bit_and-eight b, bit_and-eight (bit_and a b), bit_and-fourth a b)

offers-hevc_common : (a b : ℕ) → offers (bit_and a b) hevc ≡ offers a hevc && offers b hevc
unfolding offers codec_index
offers-hevc_common a b =
    ground (arith, bit_and-four a, bit_and-four b, bit_and-four (bit_and a b), bit_and-third a b)

same_codec→eq : (a b : VideoCodec) → same_codec a b ≡ true → a ≡ b
unfolding same_codec codec_index
same_codec→eq auto b h = ground arith
same_codec→eq h264 b h = ground arith
same_codec→eq hevc b h = ground arith
same_codec→eq av1 b h = ground arith
same_codec→eq raw_rgb b h = ground arith

-- The lossless mode is on exactly above 2 Gbit/s between two sides that both have it. Outside it the
-- codec is AV1 where both sides offer it, else HEVC where both offer that, else H.264.
pub adapt_codec_lem :
    (c : AdaptiveController)
    → let config = (adapt_codec c).current_config in
      ((config.enable_lossless ≡ true)
        × (2000000000 < c.bandwidth_est_bps)
        × (c.server_caps.supports_lossless ≡ true)
        × (c.client_caps.supports_lossless ≡ true))
      ⊎ ((config.enable_lossless ≡ false)
          × ¬ (
              (2000000000 < c.bandwidth_est_bps)
              × (c.server_caps.supports_lossless ≡ true)
              × (c.client_caps.supports_lossless ≡ true))
          × (((config.codec ≡ av1) × BothOffer c av1)
              ⊎ ((config.codec ≡ hevc) × BothOffer c hevc × ¬ BothOffer c av1)
              ⊎ ((config.codec ≡ h264) × ¬ BothOffer c av1 × ¬ BothOffer c hevc)))
unfolding adapt_codec next_codec
adapt_codec_lem c = ground (
  arith,
  offers-av1_common c.server_caps.supported_codecs_mask c.client_caps.supported_codecs_mask,
  offers-hevc_common c.server_caps.supported_codecs_mask c.client_caps.supported_codecs_mask,
  same_codec→eq c.current_config.codec (next_codec (common_mask c)),
)
