-- ===== src/Server/Encoders/Streams.antt =====
-- Which streams the encoders are set to.
use ultra_display_os.Prelude.{
  ℕ, ◌/◌, ◌<◌, ◌≡◌, ◌↔◌, refl, ap, Bool, true, false, ◌||◌, Option, none, some, arith,
}
use ultra_display_os.Shared.Result.{ok, has_value}
use ultra_display_os.Shared.CodecConfig.{VideoCodec, auto, h264, av1}
use ultra_display_os.Server.Adaptive.{EncoderConfig}
use ultra_display_os.Server.Encoders.{
  qsv, Libraries, is_qsv_available, create, qsv_codec_id, Params, Qsv, qsv_params, qsv_reconfigure,
}

-- The kilobits that a session of QSV is set to are those of the configuration exactly below 65.536 Mbit/s.
pub qsv_bitrate :
    (config : EncoderConfig)
    → ((qsv_params config).bitrate ≡ config.bitrate_bps / 1000) ↔ (config.bitrate_bps < 65_536_000)
unfolding qsv_params
qsv_bitrate config = (λ h. omega arith, λ h. omega arith)

abbrev pub any_library : Libraries → Bool
any_library libs = libs.nv_encode_api || libs.amfrt || libs.libmfxhw || libs.libvpl

-- An encoder is created exactly if one of the four libraries loads, and it is the same for every codec.
pub create_lem :
    (libs : Libraries) (codec other : VideoCodec)
    → (create libs codec ≡ create libs other) × (has_value (create libs codec) ≡ any_library libs)
unfolding create is_qsv_available
create_lem libs codec other = (refl, ground arith)

abbrev codec_of : Option Params → VideoCodec
codec_of none = auto
codec_of (some p) = p.codec

-- Where only a library of QSV loads, the encoder for AV1 is one of QSV, and a session that is set to AV1
-- without an error encodes H.264.
pub av1_as_h264 :
    (libs : Libraries) (t : Qsv) (config : EncoderConfig) (kb : ℕ)
    → libs.nv_encode_api ≡ false
    → libs.amfrt ≡ false
    → libs.libmfxhw || libs.libvpl ≡ true
    → config.codec ≡ av1
    → (create libs config.codec ≡ ok qsv)
      × ((qsv_reconfigure t config true kb).0 ≡ ok tt)
      × (codec_of (qsv_reconfigure t config true kb).1.params ≡ h264)
unfolding create is_qsv_available qsv_reconfigure qsv_params qsv_codec_id
av1_as_h264 libs t config kb no_nv no_amf some_qsv e =
    (ground arith, ground arith, ground (arith, ap qsv_codec_id e))
